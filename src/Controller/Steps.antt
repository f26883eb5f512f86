-- ===== src/Controller/Steps.antt =====
-- `Controller._seal`, `_abort` and the checks of the guard's frames.
use simmis.Prelude.{
  pos, ℕ, Bool, true, false, ◌&&◌, List, [], ◌∷◌, Option, none, some, contains, list_eq, nat_eq,
  ◌==◌, Result, ok, err, runtime_error,
}
use simmis.Program.{M, ◌>>=◌, ◌>>◌, lift, done, raise, ensure, get, attempt, when}
use simmis.Controller.Calls.{
  waiting, State, World, call, admit, seal, acknowledge, load, close_frames, stop_unit, release,
  references, finish,
}
use simmis.Controller.Lease.{abort_launched, client_call}
use simmis.ExecutionUnit.Observer.{text_of}
use simmis.Host.{Host}
use simmis.Namespace.{policy}
use simmis.Outputs.{validate}
use simmis.Value.{Text, text, Bytes, Value, str, int, dict, Dict, index, item, is_str, closed}
use simmis.Value.Equality.{value_eq}

-- What a controller is made with.
pub record Settings : Type 0 where
  pub worker : Text
  pub endpoint : Text
  pub config : Value
  pub interval : ℕ

-- b"GO\n"
abbrev pub go : Bytes
go = 71 ∷ 79 ∷ 10 ∷ []

unfoldable pub is_some : {A : Type 0} → Option A → Bool
is_some none = false
is_some (some a) = true

abbrev pub run_argument : Text → Value
run_argument run = dict ((text "run", str run) ∷ [])

-- self.config.get("adapter") == "codex"
unfoldable pub is_codex : Value → Bool
unfolding index is_str
is_codex config = elim (index config (text "adapter")) [
  | ok v ↦ is_str (λ t. t == text "codex") v
  | err e ↦ false
]

-- The value under "policy" or under "execution-profile" of the guard's first frame.
unfoldable pub ready_identity : Option Value → Result (Text × Value)
unfolding index
ready_identity none = ok (text "policy", policy)
ready_identity (some sci) = elim (index sci (text "profile")) [
  | ok profile ↦ ok (text "execution-profile", profile)
  | err e ↦ err e
]

-- The keys of the guard's last frame.
unfoldable pub complete_keys : Option Value → List Text
complete_keys none = text "kind" ∷ text "input-id" ∷ text "output" ∷ text "reaped-descendants" ∷ []
complete_keys (some sci) = text "kind" ∷ text "input-id" ∷ text "output" ∷ []

-- type(value) is int and value >= 0
unfoldable pub is_count : Result Value → Bool
is_count (ok (int (pos n))) = true
is_count _ = false

-- `sci is None and ...`
unfoldable pub is_reaped : Option Value → Dict → Bool
unfolding item is_count
is_reaped none d = is_count (item (text "reaped-descendants") d)
is_reaped (some sci) d = true

module _ (host : Host) {W : Type 0} (world : World W) where
  -- `ready != expected`
  unfoldable pub check_ready : Value → Option Value → Value → M (State W) (Unit {0})
  unfolding index ready_identity value_eq
  check_ready frozen sci ready = do
    input_id ← lift (index frozen (text "input-id"))
    own ← lift (ready_identity sci)
    ensure (
        value_eq host.floats ready
          (dict ((text "kind", str (text "ready")) ∷ (text "input-id", input_id) ∷ own ∷ [])))

  -- The checks of the last frame; the validated output.
  unfoldable pub check_complete : Value → Value → Option Value → Value → M (State W) Value
  unfolding closed complete_keys item index is_str value_eq is_reaped validate
  check_complete frozen config sci complete = do
    d ← lift (closed complete (complete_keys sci))
    kind ← lift (item (text "kind") d)
    id ← lift (item (text "input-id") d)
    input_id ← lift (index frozen (text "input-id"))
    ensure (
        is_str (λ t. t == text "complete") kind
        && value_eq host.floats id input_id
        && is_reaped sci d)
    output ← lift (item (text "output") d)
    lift (validate host frozen config output)

  unfoldable pub seal_once : Option Value → Text → Value → Option Value → M (State W) Value
  seal_once (some existing) run observation output = done existing
  seal_once none run observation output = call world (seal run observation output)

  -- `_seal`; `wait` is the observer's wait_stopped, with or without a tick.
  unfoldable pub seal_stopped : M (State W) Value → Text → Value → Option Value → M (State W) Value
  unfolding seal_once
  seal_stopped wait run identity output = do
    observation ← wait
    chain ← call world (load run)
    sealed ← seal_once chain.stopped run observation output
    call world (release identity)
    done sealed

  abbrev pub quietly : Value → M (State W) Value
  quietly identity = call world (finish (waiting identity))

  unfoldable pub stop_run : Option Value → Text → Value → M (State W) (Unit {0})
  unfolding seal_stopped text_of contains
  stop_run none run identity = do
    call world (stop_unit identity)
    call world (admit run identity)
    _ ← seal_stopped (quietly identity) run identity none
    done tt
  stop_run (some existing) run identity = do
    name ← lift (text_of identity (text "unit"))
    names ← call world references
    when (contains names name) (call world (release identity))

  unfoldable pub report_stop : Bool → Text → M (State W) (Unit {0})
  unfolding client_call
  report_stop true run = done tt
  report_stop false run = do
    receipt ← client_call world (text "simmis_worker-stop") (run_argument run)
    _ ← call world (acknowledge run (text "stopped") receipt)
    done tt

  unfoldable pub abort_unit : Option Value → Option Value → Text → M (State W) (Unit {0})
  unfolding abort_launched stop_run report_stop
  abort_unit none launch run = abort_launched world launch
  abort_unit (some identity) launch run = do
    chain ← call world (load run)
    stop_run chain.stopped run identity
    c ← get (λ s. s.control)
    report_stop c.publication_attempted run

  -- `_abort`
  unfoldable pub abort : Text → M (State W) (Unit {0})
  unfolding abort_unit
  abort run = do c ← get (λ s. s.control); when c.observer (abort_unit c.identity c.launch run)

  -- The cleanup of `except BaseException`, whose own failure is a RuntimeError.
  unfoldable pub cleaned : Result (Unit {0}) → M (State W) (Unit {0})
  cleaned (ok u) = done tt
  cleaned (err e) = raise runtime_error

  unfoldable pub abort_once : Bool → Text → M (State W) (Unit {0})
  unfolding abort cleaned
  abort_once true run = done tt
  abort_once false run = do r ← attempt (abort run); cleaned r

  unfoldable pub recover : Text → Result Value → M (State W) Value
  unfolding abort_once
  recover run (ok v) = done v
  recover run (err e) = do c ← get (λ s. s.control); abort_once c.publication_attempted run; raise e

  unfoldable pub close_if : Bool → M (State W) (Unit {0})
  close_if true = call world close_frames
  close_if false = done tt

  -- `finally: if self.frames is not None: self.frames.close()`
  unfoldable pub drop_frames : M (State W) (Unit {0})
  unfolding close_if
  drop_frames = do c ← get (λ s. s.control); close_if c.frames
