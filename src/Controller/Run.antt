-- ===== src/Controller/Run.antt =====
-- `Controller.run` in its steps, and `close`.
use simmis.Prelude.{
  ◌+◌, true, not, [], ◌∷◌, Option, none, some, list_eq, nat_eq, ok, err, type_error,
}
use simmis.Program.{M, ◌>>=◌, ◌>>◌, lift, done, ensure, get, attempt, when, finally, within}
use simmis.Controller.{checked_receipt}
use simmis.Controller.Calls.{
  writing, reading, waiting, State, World, call, change, lock, unlock, unresolved, run_exists,
  check_profile, start_observer, child_directory, claim_prepare, open_enrollment, open_client,
  request, monotonic_ms, encode_request, prepare, admit, acknowledge, open_frames, close_child_ends,
  launch_unit, capture, close_observer,
}
use simmis.Controller.Lease.{
  request_stop, require_live, client_call, exchange, enter, leave, tick, input_call, serviced,
  nat_of,
}
use simmis.Host.{Host}
use simmis.Inputs.{canonical_uuid}
use simmis.Inputs.Fetch.{fetch}
use simmis.Value.{Text, text, Bytes, Value, str, dict, index, closed}
use simmis.Controller.Steps.{
  Settings, go, is_some, is_codex, check_ready, check_complete, seal_stopped, recover, drop_frames,
}

module _ (host : Host) {W : Type 0} (world : World W) where
  module _ (settings : Settings) (run : Text) (ticket : Value) (sci : Option Value) where
    abbrev pub force : M (State W) (Unit {0})
    force = tick world settings.interval ticket true

    -- `self.observer.launch(...)`, with its arguments
    unfoldable pub launch_guard : Value → Value → M (State W) (Unit {0})
    unfolding index
    launch_guard launch frozen = do
      name ← lift (index launch (text "unit"))
      limits ← lift (index frozen (text "limits"))
      timeout ← lift (index limits (text "timeout-ms"))
      call world (launch_unit name timeout sci)

    -- From the frozen input to the launched unit.
    unfoldable pub start : Option Value → M (State W) (Value × Bytes)
    unfolding fetch tick input_call launch_guard
    start argv = do
      frozen ← fetch host (input_call world settings.interval ticket) (str run) settings.config
      encoded ← call world (encode_request frozen argv sci)
      force
      launch ← call world (prepare run ticket frozen sci)
      change (λ c. record c { launch = some launch })
      call world open_frames
      change (λ c. record c { frames = true })
      finally (launch_guard launch frozen) (call world close_child_ends)
      done (frozen, encoded)

    -- Until the guard is ready and its identity is captured.
    unfoldable pub await_ready : Value → Bytes → M (State W) Value
    unfolding serviced check_ready index
    await_ready frozen encoded = do
      now ← call world monotonic_ms
      serviced world settings.interval ticket (writing encoded (now + 25000))
      ready ← serviced world settings.interval ticket (reading (now + 25000))
      check_ready host world frozen sci ready
      c ← get (λ s. s.control)
      launch ← lift (elim c.launch [ none ↦ err type_error | some launch ↦ ok launch ])
      name ← lift (index launch (text "unit"))
      identity ← call world (capture name)
      change (λ c'. record c' { identity = some identity })
      done identity

    -- From GO to the validated output.
    unfoldable pub execute : Value → M (State W) Value
    unfolding serviced check_complete index nat_of
    execute frozen = do
      now ← call world monotonic_ms
      serviced world settings.interval ticket (writing go (now + 5000))
      at_go ← call world monotonic_ms
      limits ← lift (index frozen (text "limits"))
      timeout ← lift (nat_of limits (text "timeout-ms"))
      complete ← serviced world settings.interval ticket (reading (at_go + timeout + 10000))
      check_complete host world frozen settings.config sci complete

    -- The publication of a sealed output.
    unfoldable pub publish : Value → M (State W) Value
    unfolding client_call tick
    publish output = do
      force
      change (λ c. record c { publication_attempted = true })
      receipt ←
          client_call world (text "simmis_worker-complete")
            (dict ((text "run", str run) ∷ (text "output", output) ∷ []))
      call world (acknowledge run (text "completed") receipt)

    -- The body of `try`.
    unfoldable pub attempt_run : Option Value → M (State W) Value
    unfolding start await_ready execute seal_stopped serviced publish tick
    attempt_run argv = do
      p ← start argv
      identity ← await_ready p.0 p.1
      call world (admit run identity)
      force
      output ← execute p.0
      _ ←
          seal_stopped host world (serviced world settings.interval ticket (waiting identity)) run
            identity (some output)
      publish output

    unfoldable pub leased : Option Value → M (State W) Value
    unfolding attempt_run recover drop_frames tick
    leased argv = do
      change (λ c. record c { lease = record { next = none; valid_until = 0 } })
      force
      finally (attempt (attempt_run argv) >>= recover host world run) (drop_frames host world)

    -- The claim, over the enrollment's connection.
    unfoldable pub claim : M (State W) (Unit {0})
    unfolding exchange index checked_receipt require_live
    claim = do
      nonce ← lift (index ticket (text "nonce"))
      reply ← exchange world (done tt) (
          request (text "simmis_worker-claim")
            (dict ((text "run", str run) ∷ (text "nonce", nonce) ∷ [])))
      receipt ← lift (checked_receipt reply ticket)
      require_live world receipt

    unfoldable pub claimed : Option Value → M (State W) Value
    unfolding enter leave claim leased request_stop
    claimed argv = do
      within (enter world (done tt) (open_enrollment ticket)) (leave world (done tt)) claim
      within (enter world (request_stop world) (open_client ticket))
          (leave world (request_stop world)) (leased argv)

  unfoldable pub locked : Settings → Text → Option Value → Option Value → M (State W) Value
  unfolding claimed is_some
  locked settings run argv sci = do
    held ← call world unresolved
    ensure (not held)
    exists ← call world (run_exists run)
    ensure (not exists)
    call world (start_observer (is_some sci))
    change (λ c. record c { observer = true })
    call world (child_directory run)
    ticket ← call world (claim_prepare run)
    claimed settings run ticket sci argv

  unfoldable pub check_sci : Option Value → Option Value → Value → M (State W) (Unit {0})
  unfolding closed is_codex is_some
  check_sci none argv config = done tt
  check_sci (some sci) argv config = do
    ensure (not (is_some argv))
    _ ← lift (closed sci (text "profile" ∷ text "codex-home" ∷ []))
    ensure (is_codex config)
    call world (check_profile sci)

  -- `Controller.run`
  unfoldable pub run : Settings → Value → Option Value → Option Value → M (State W) Value
  unfolding canonical_uuid check_sci locked
  run settings run_value argv sci = do
    name ← lift (canonical_uuid run_value)
    check_sci sci argv settings.config
    c ← get (λ s. s.control)
    ensure (not c.used)
    change (λ c'. record c' { used = true })
    within (call world lock) (call world unlock) (locked settings name argv sci)

  -- `Controller.close`
  unfoldable pub close : M (State W) (Unit {0})
  close = do c ← get (λ s. s.control); when c.observer (call world close_observer)
