-- ===== src/Lib.antt =====
-- The local worker of simmis: the Python scripts that claim a task from the server, download its
-- frozen input, run it in a systemd unit, seal its output and report the outcome. Paths are from the
-- repository's root.
--
-- The parts and how they interact. scripts/worker_inputs.py checks the frozen input of a task and
-- downloads it in chunks; scripts/worker_outputs.py checks an output against that input;
-- scripts/worker_unit.py, scripts/worker_runtime.py and scripts/worker_namespace.py say which unit, runtime
-- and namespace policies a record may pin; scripts/worker_journal.py keeps four immutable records for
-- each Run (launch, admitted, stopped, acknowledged) in a private directory, and its validation calls
-- all of the others. scripts/worker_claim.py keeps the private ticket from which a launch record takes its
-- owner. scripts/worker_controller.py runs a task in this order: it locks the worker, looks for unresolved
-- Runs, prepares a ticket, claims the task over scripts/worker_transport.py, downloads the input,
-- launches a unit and talks with its guard over the pipes of scripts/worker_io.py, and records each phase
-- in the journal before the next.
--
-- The files.
-- - Prelude: Boolean tests and lists over native numbers, exceptions as values (Prelude/Failure).
-- - Value: JSON values as Python has them, the reading of dicts, Python's equality (Value/Equality),
--   and the hooks of json.loads (Value/Decode).
-- - Host: the library functions that the code calls and whose behaviour is a parameter: hashes,
--   base64, the JSON parser and printer, URL splitting, case folding and the comparison of floats.
-- - Paths: path_parts and the collision test of worker_inputs.py; Paths/Safety and Paths/Collision
--   say what they establish.
-- - Inputs: validate and file_bytes; Inputs/Fetch has the download loop fetch.
-- - Endpoint: origin and mcp_endpoint of scripts/mcp_client.py, and the same checks of MCP.__init__ in
--   scripts/mcp_workspace.py.
-- - Files: a private directory by name, with creation and removal, and _regular_info of
--   scripts/worker_claim.py.
-- - ExecutionUnit, Runtime, Namespace: validate_name, validate_identity, validate_profile and the
--   policies; Namespace/Request has read_request.
-- - Outputs: validate of worker_outputs.py.
-- - Journal: Journal/Records has encode, digest, _read and _common; Journal/Validate has the validation
--   of the phases; Journal/Publish has _publish; Journal/Chain has _chain, _advance, admit, stopped (as
--   stop) and acknowledge; Journal/Prepare has prepare; Journal/Unresolved has unresolved.
-- - Claim: the ticket of a claim, scripts/worker_claim.py: _validate, _load, prepare and lease_token.
-- - Program: Python methods that raise and change state, a state passed on also by an exception, with
--   try, finally and with; Program/Triple has what holds after them, Program/Ends that they end.
-- - ExecutionUnit/Observer: UnitBus of scripts/worker_unit.py over a Bus, which stands for the user's
--   systemd manager, the cgroup files and the clock. Its methods are in Observer/Methods under their
--   names, with _check as check, _properties as properties and _snapshot as snapshot.
-- - Json, Frames: the lines of JSON of scripts/worker_io.py; Frames/Calls has the system calls.
-- - Controller: checked_receipt of scripts/worker_controller.py. Controller/Calls has what the controller
--   calls, as data, and a state that puts each call on record with its reply; Controller/Lease has
--   Lease, require_live, _request_stop, and MCP of scripts/worker_transport.py as its client (_request
--   as exchange, __enter__ and __exit__ as enter and leave); Controller/Steps has _seal as
--   seal_stopped, _abort as abort, and the checks of the guard's frames; Controller/Run has run in steps; Controller/Reconcile has reconcile.
-- - Tests: runs at concrete inputs.
--
-- Conventions. Text is a list of code points and bytes a list of numbers. A dict is an association
-- list in insertion order; a set of names is a list. Exceptions are the constructors of Error, and
-- ValueError stands for its subclasses too. The download loop `while True` has fuel
-- max-input-json-bytes: each round reads at least one byte of at most so many, so that the fuel is
-- never used up. `_publish`, and `prepare` of a
-- claim, take the effect of other processes on the directory between the staging
-- of a file and its link as a function, and the random names as arguments; the link takes the staging
-- file as they have left it, and fails where they have removed it. A private
-- file is its contents with one Boolean for what _regular_info checks of type, owner and mode.
--
-- The methods of UnitBus wait for a list of wakes that ends with the deadline, and the loops of Frames
-- have fuel; fuel that exceeds the readings of the clock before the deadline is never used up. Times of
-- Frames and of Lease are in milliseconds. An operation of the controller that ticks the lease while it
-- waits (frames.write, frames.read, wait_stopped) is a beginning, rounds that tick first, as many as
-- the world says, and an end. The clock of a Lease is taken to be past half a second.
--
-- Not modelled: the connection to D-Bus and its signal handlers, the argument lists of processes, the
-- child process of scripts/worker_transport.py, scripts/worker_sci.py and scripts/worker_driver.py, file
-- descriptors and their identity checks, fsync, the length of the staging file's life on disk after a
-- crash, processes, sockets, systemd and the other scripts.
pub mod Prelude
pub mod Program
pub mod Value
pub mod Paths
pub mod Host
pub mod Inputs
pub mod Endpoint
pub mod Files
pub mod ExecutionUnit
pub mod Runtime
pub mod Namespace
pub mod Outputs
pub mod Journal
pub mod Claim
pub mod Controller
pub mod Json
pub mod Frames
pub mod Tests
