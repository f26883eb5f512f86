-- ===== src/Controller/Calls.antt =====
-- What the controller of scripts/worker_controller.py calls, as data: each call is put on record with its
-- reply. The parts that it calls are modelled by themselves, and the world stands for all of them here.
use simmis.Prelude.{ℕ, Bool, List, ◌∷◌, Option, Result}
use simmis.Program.{M, modify}
use simmis.Value.{Text, Bytes, Value}

-- The operations that service the lease while they wait.
pub data Served : Type 0 where
  -- frames.write, with its deadline in milliseconds
  writing : Bytes → ℕ → Served
  -- frames.read
  reading : ℕ → Served
  -- observer.wait_stopped
  waiting : Value → Served

pub data Call : Type 0 where
  -- claim.controller_lock, entered and left
  lock : Call
  unlock : Call
  -- bool(journal.unresolved(self.runs, self.worker))
  unresolved : Call
  -- os.path.lexists(self.runs / run)
  run_exists : Text → Call
  -- runtime.validate_profile, verify and environment
  check_profile : Value → Call
  start_observer : Bool → Call
  -- _child_directory(self.runs, run)
  child_directory : Text → Call
  -- claim.prepare and claim.load
  claim_prepare : Text → Call
  claim_load : Text → Call
  -- the helper process of an MCP, started and joined
  spawn_client : Call
  terminate_client : Call
  -- what MCP sends to it: the opening of the enrollment or of the lease of a ticket, a tool, the end
  open_enrollment : Value → Call
  open_client : Value → Call
  request : Text → Value → Call
  close_client : Call
  -- time.time() and time.monotonic(), in milliseconds
  time_ms : Call
  monotonic_ms : Call
  -- the encoded request, accepted by namespace.read_request or by sci_supervisor.request
  encode_request : Value → Option Value → Option Value → Call
  -- journal.prepare, admit, stopped, acknowledge and load
  prepare : Text → Value → Value → Option Value → Call
  admit : Text → Value → Call
  seal : Text → Value → Option Value → Call
  acknowledge : Text → Text → Value → Call
  load : Text → Call
  -- os.pipe twice and Frames, the child's ends closed, and frames.close
  open_frames : Call
  close_child_ends : Call
  close_frames : Call
  -- UnitBus.launch, capture, stop, abort_launch, retain, release, close, and its sets
  launch_unit : Value → Value → Option Value → Call
  capture : Value → Call
  stop_unit : Value → Call
  abort_launch : Value → Call
  retain : Value → Call
  release : Value → Call
  close_observer : Call
  references : Call
  launched_units : Call
  -- how many rounds an operation makes, what it does in one of them, and how it ends
  begin : Served → Call
  turn : Served → Call
  finish : Served → Call

-- The records of a Run that journal.load returns.
pub record Chain : Type 0 where
  pub launch : Option Value
  pub admitted : Option Value
  pub stopped : Option Value
  pub acknowledged : Option Value

abbrev pub Answer : Served → Type 0
Answer (writing bytes deadline) = Unit {0}
Answer (reading deadline) = Value
Answer (waiting identity) = Value

abbrev pub Reply : Call → Type 0
Reply unresolved = Bool
Reply (run_exists run) = Bool
Reply (claim_prepare run) = Value
Reply (claim_load run) = Value
Reply (request tool arguments) = Value
Reply time_ms = ℕ
Reply monotonic_ms = ℕ
Reply (encode_request frozen argv sci) = Bytes
Reply (prepare run ticket frozen sci) = Value
Reply (seal run observation output) = Value
Reply (acknowledge run outcome receipt) = Value
Reply (load run) = Chain
Reply (capture name) = Value
Reply references = List Text
Reply launched_units = List Text
Reply (begin served) = ℕ
Reply (finish served) = Answer served
Reply _ = Unit {0}

pub record Entry : Type 0 where
  pub call : Call
  pub reply : Result (Reply call)

-- `next` and `valid_until` of a Lease, in milliseconds; none is 0, which is no receipt yet.
pub record Lease : Type 0 where
  pub next : Option ℕ
  pub valid_until : ℕ

-- The fields of `Controller` that change; `observer` and `frames` say whether there is one.
pub record Control : Type 0 where
  pub observer : Bool
  pub frames : Bool
  pub identity : Option Value
  pub launch : Option Value
  pub publication_attempted : Bool
  pub used : Bool
  pub lease : Lease
  -- the MCP in use has its frames
  pub connected : Bool

pub record State (W : Type 0) : Type 0 where
  pub control : Control
  pub world : W
  -- the calls so far, the last one first
  pub log : List Entry

abbrev pub World : Type 0 → Type 0
World W = (c : Call) → M W (Reply c)

module _ {W : Type 0} where
  abbrev pub recorded : (c : Call) → Result (Reply c) × W → State W → Result (Reply c) × State W
  recorded c (r, w) s = (r, record s { world = w; log = record { call = c; reply = r } ∷ s.log })

  abbrev pub call : World W → (c : Call) → M (State W) (Reply c)
  call world c s = recorded c (world c s.world) s

  abbrev pub change : (Control → Control) → M (State W) (Unit {0})
  change f = modify (λ s. record s { control = f s.control })
