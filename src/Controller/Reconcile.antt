-- ===== src/Controller/Reconcile.antt =====
-- `Controller.reconcile`, in its steps.
use simmis.Prelude.{
  Bool, true, false, ◌&&◌, not, [], ◌∷◌, Option, none, some, list_eq, nat_eq, ◌==◌, Result, ok, err,
  value_error, type_error,
}
use simmis.Value.{is_int, Text, text, Value, null, str, index, dict, is_str}
use simmis.Program.{M, ◌>>=◌, ◌>>◌, lift, done, ensure, get, within}
use simmis.Controller.Calls.{Call, State, World, call, change}
use simmis.Controller.Lease.{request_stop, client_call, enter, leave, status}
use simmis.Controller.Steps.{Settings, run_argument, seal_stopped, quietly}
use simmis.Host.{Host}
use simmis.Inputs.{canonical_uuid}
use simmis.Journal.Prepare.{owner_of}
use simmis.Journal.Validate.{same_text, is_true}
use simmis.Value.Equality.{value_eq}

unfoldable pub the : Option Value → Result Value
the none = err type_error
the (some v) = ok v

-- stopped["output"] is not None
unfoldable pub is_output : Value → Bool
is_output null = false
is_output _ = true

-- launch["version"] == 2
unfoldable pub is_packaged : Value → Result Bool
unfolding index is_int
is_packaged launch = elim (index launch (text "version")) [ ok v ↦ ok (is_int 2 v) | err e ↦ err e ]

module _ (host : Host) {W : Type 0} (world : World W) where
  -- The launch and the admission that a chain has, if they are this controller's for the ticket.
  unfoldable pub known_launch :
      Settings → Value → Option Value → Option Value → M (State W) (Value × Value)
  unfolding index same_text value_eq owner_of
  known_launch settings ticket (some launch) (some admission) = do
    endpoint ← lift (index launch (text "endpoint"))
    ensure (same_text endpoint (str settings.endpoint))
    frozen ← lift (index launch (text "frozen"))
    config ← lift (index frozen (text "config"))
    ensure (value_eq host.floats config settings.config)
    owner ← lift (index launch (text "owner"))
    own ← lift (owner_of ticket)
    ensure (value_eq host.floats owner own)
    done (launch, admission)
  known_launch settings ticket _ _ = lift (err value_error)

  -- `if chain["stopped"] is None: ...`; the record of the stop.
  unfoldable pub stop_retained : Option Value → Text → Value → Value → M (State W) Value
  unfolding is_packaged seal_stopped the
  stop_retained (some stopped) run launch identity = done stopped
  stop_retained none run launch identity = do
    sci ← lift (is_packaged launch)
    call world (Call.start_observer sci)
    change (λ c. record c { observer = true })
    call world (Call.retain identity)
    call world (Call.stop_unit identity)
    _ ← seal_stopped host world (quietly host world identity) run identity none
    chain ← call world (Call.load run)
    lift (the chain.stopped)

  unfoldable pub report : Bool → Text → Value → M (State W) Value
  unfolding client_call
  report true run output = do
    change (λ c. record c { publication_attempted = true })
    receipt ←
        client_call world (text "simmis_worker-complete")
          (dict ((text "run", str run) ∷ (text "output", output) ∷ []))
    call world (Call.acknowledge run (text "completed") receipt)
  report false run output = do
    receipt ← client_call world (text "simmis_worker-stop") (run_argument run)
    call world (Call.acknowledge run (text "stopped") receipt)

  -- What the server is told, by the receipt that it gave.
  unfoldable pub settle : Bool → Text → Value → Value → M (State W) Value
  unfolding index is_str is_true is_output report
  settle true run receipt stopped = call world (Call.acknowledge run (text "completed") receipt)
  settle false run receipt stopped = do
    output ← lift (index stopped (text "output"))
    state ← lift (index receipt (text "state"))
    cancel ← lift (index receipt (text "cancel-requested?"))
    ack ← lift (index receipt (text "stop-ack?"))
    report
        (is_output output
          && is_str (λ t. t == text "claimed") state
          && not (is_true cancel)
          && not (is_true ack))
        run output

  unfoldable pub told : Text → Value → Value → M (State W) Value
  unfolding status settle index is_str
  told run ticket stopped = do
    change (λ c. record c { lease = record { next = none; valid_until = 0 } })
    receipt ← status world 5000 ticket
    state ← lift (index receipt (text "state"))
    settle (is_str (λ t. t == text "completed") state) run receipt stopped

  unfoldable pub resume :
      Option Value → Text → Value → Option Value → Value × Value → M (State W) Value
  unfolding index stop_retained told enter leave request_stop
  resume (some receipt) run ticket stopped p = done receipt
  resume none run ticket stopped (launch, admission) = do
    identity ← lift (index admission (text "identity"))
    change (λ c. record c { launch = some launch; identity = some identity })
    kept ← stop_retained stopped run launch identity
    within (enter world (request_stop world) (Call.open_client ticket))
        (leave world (request_stop world)) (told run ticket kept)

  unfoldable pub reconcile_locked : Settings → Text → M (State W) Value
  unfolding index same_text known_launch resume
  reconcile_locked settings run = do
    ticket ← call world (Call.claim_load run)
    worker ← lift (index ticket (text "worker"))
    claimed ← lift (index ticket (text "run"))
    ensure (same_text worker (str settings.worker) && same_text claimed (str run))
    chain ← call world (Call.load run)
    p ← known_launch settings ticket chain.launch chain.admitted
    resume chain.acknowledged run ticket chain.stopped p

  -- `Controller.reconcile`
  unfoldable pub reconcile : Settings → Value → M (State W) Value
  unfolding canonical_uuid reconcile_locked
  reconcile settings run_value = do
    run ← lift (canonical_uuid run_value)
    c ← get (λ s. s.control)
    ensure (not c.used)
    change (λ c'. record c' { used = true })
    within (call world Call.lock) (call world Call.unlock) (reconcile_locked settings run)
