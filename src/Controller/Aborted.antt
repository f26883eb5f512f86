-- ===== src/Controller/Aborted.antt =====
-- The order of the calls in `_seal` and in the cleanup of a failed run.
use simmis.Prelude.{
  list_beq, runtime_error, ◌≡◌, refl, Bool, true, false, List, [], ◌∷◌, Option, none, some,
  contains, list_eq, nat_eq, Result, ok, err,
}
use simmis.Program.{M, lift, done, raise, get, attempt}
use simmis.Program.Triple.{Triple, Keeps, Triple-lift, Triple-get, Triple-bind, Triple-mono}
use simmis.Controller.Calls.{waiting, Call, State, World, call}
use simmis.Controller.Lease.{client_call}
use simmis.Controller.Order.{
  is_plain, On, Keeps-lift, Keeps-bind, Keeps-get, Keeps-when, Keeps-attempt, Keeps-call,
}
use simmis.Controller.Serviced.{abort_launched-Keeps, client_call-Keeps}
use simmis.Controller.Ordered.{
  Fact, waited, sealed, Has, Has-logged, Has-forget, Keeps-needed, Triple-Grants,
  Triple-Grants_needed, Triple-load, Holds, Needs, Grants,
}
use simmis.Controller.Steps.{
  is_some, run_argument, seal_once, seal_stopped, quietly, stop_run, report_stop, abort_unit, abort,
  cleaned, abort_once, recover,
}
use simmis.ExecutionUnit.Observer.{text_of}
use simmis.Host.{Host}
use simmis.Value.{Text, text, Value, str, index, dict}

-- The calls so far are in order, and what is listed is on record.
abbrev pub Stage : {W : Type 0} → Text → List Fact → State W → Type 0
Stage run fs = On (Has run fs)

-- Where a stage is kept, it is so where the program returns.
pub weaken :
    {W A : Type 0} (run : Text) (fs : List Fact) (m : M (State W) A)
    → Keeps (Stage run fs) m
    → Triple (Stage run fs) m (λ _. Stage run fs) (Stage run [])
weaken run fs m k = Triple-mono m (λ s p. p) (λ a s p. p) (λ s p. Has-forget run fs s.log p) k

module _ (host : Host) {W : Type 0} (world : World W) where
  release-Keeps :
      (run : Text) (identity : Value)
      → Keeps (Stage run (sealed ∷ [])) (call world (Call.release identity))
  unfolding Needs
  release-Keeps run identity =
      Keeps-needed run world (sealed ∷ []) (Call.release identity) (λ log h. h.held.0)

  seal_once-Triple :
      (stopped : Option Value) (run : Text) (identity observation : Value) (output : Option Value)
      → Triple
          (On (λ log.
            Has run (waited identity observation ∷ []) log
            × (is_some stopped ≡ true → Holds run sealed log)))
          (seal_once host world stopped run observation output)
          (λ _. Stage run (sealed ∷ []))
          (Stage run [])
  unfolding seal_once Grants is_some Needs
  seal_once-Triple none run identity observation output =
      Triple-mono (call world (Call.seal run observation output)) (λ s p. p.0)
        (λ a s p. record { ordered = p.ordered; held = (p.held.0, tt) }) (λ s p. p)
        (Triple-Grants_needed run world (waited identity observation ∷ [])
          (Call.seal run observation output) (λ _. sealed) (λ log h. (refl, (identity, h.held.0)))
          (λ v. refl))
  seal_once-Triple (some existing) run identity observation output =
      Triple-lift (ok existing) (λ a s e p. record { ordered = p.0.ordered; held = (p.1 refl, tt) })
        (λ x s e p. Has-forget run (waited identity observation ∷ []) s.log p.0)

  -- The wait without a tick has observed the stop.
  pub quietly-Triple :
      (run : Text) (identity : Value)
      → Triple
          (Stage run [])
          (quietly host world identity)
          (λ observation. Stage run (waited identity observation ∷ []))
          (Stage run [])
  unfolding is_plain Grants
  quietly-Triple run identity =
      Triple-Grants run world [] (Call.finish (waiting identity)) (waited identity) refl
        (λ v. (refl, refl))

  -- After `_seal` the stop is on record, and the unit is released only then.
  pub seal_stopped-Triple :
      (wait : M (State W) Value) (run : Text) (identity : Value) (output : Option Value)
      → Triple
          (Stage run [])
          wait
          (λ observation. Stage run (waited identity observation ∷ []))
          (Stage run [])
      → Triple
          (Stage run [])
          (seal_stopped host world wait run identity output)
          (λ _. Stage run (sealed ∷ []))
          (Stage run [])
  unfolding seal_stopped
  seal_stopped-Triple wait run identity output t = Triple-bind wait _ t λ observation.
      Triple-bind (call world (Call.load run)) _
        (Triple-load run world (waited identity observation ∷ []))
        λ chain.
          Triple-bind (seal_once host world chain.stopped run observation output) _
            (seal_once-Triple chain.stopped run identity observation output)
            λ kept.
              Triple-bind (call world (Call.release identity)) (λ _. done kept)
                (weaken run (sealed ∷ []) (call world (Call.release identity))
                  (release-Keeps run identity))
                (λ _.
                  weaken run (sealed ∷ []) (done kept)
                    (Keeps-lift (Stage run (sealed ∷ [])) (ok kept)))

  stop_run-Triple :
      (stopped : Option Value) (run : Text) (identity : Value)
      → Triple
          (On (λ log. Has run [] log × (is_some stopped ≡ true → Holds run sealed log)))
          (stop_run host world stopped run identity)
          (λ _. Stage run (sealed ∷ []))
          (Stage run [])
  unfolding stop_run is_plain is_some
  stop_run-Triple none run identity =
      Triple-bind {Q = λ _. Stage run []} (call world (Call.stop_unit identity)) _
        (Triple-mono (call world (Call.stop_unit identity)) (λ s p. p.0) (λ a s p. p) (λ s p. p)
          (Keeps-call world (Has run []) (Has-logged run []) (Call.stop_unit identity) refl))
        λ _.
          Triple-bind {Q = λ _. Stage run []} (call world (Call.admit run identity)) _
            (Keeps-call world (Has run []) (Has-logged run []) (Call.admit run identity) refl)
            λ _.
              Triple-bind (seal_stopped host world (quietly host world identity) run identity none)
                (λ _. done tt)
                (seal_stopped-Triple (quietly host world identity) run identity none
                  (quietly-Triple run identity))
                (λ _.
                  weaken run (sealed ∷ []) (done tt) (Keeps-lift (Stage run (sealed ∷ [])) (ok tt)))
  stop_run-Triple (some existing) run identity =
      Triple-mono _ (λ s p. record { ordered = p.0.ordered; held = (p.1 refl, tt) }) (λ a s p. p)
        (λ s p. p)
        (weaken run (sealed ∷ []) _ (
          Keeps-bind (Stage run (sealed ∷ [])) (lift (text_of identity (text "unit"))) _
            (Keeps-lift (Stage run (sealed ∷ [])) (text_of identity (text "unit")))
            λ name.
              Keeps-bind (Stage run (sealed ∷ [])) (call world Call.references) _
                (Keeps-call world (Has run (sealed ∷ [])) (Has-logged run (sealed ∷ []))
                  Call.references refl)
                λ names.
                  Keeps-when (Stage run (sealed ∷ [])) (contains names name)
                    (call world (Call.release identity)) (release-Keeps run identity)))

  -- A final tool is called for the Run once its stop is on record.
  final-Keeps :
      (run tool : Text) (arguments : Value)
      → index arguments (text "run") ≡ ok (str run)
      → Keeps (Stage run (sealed ∷ [])) (client_call world tool arguments)
  unfolding Needs
  final-Keeps run tool arguments e =
      client_call-Keeps world (Has run (sealed ∷ [])) (Has-logged run (sealed ∷ [])) tool arguments
        (Keeps-needed run world (sealed ∷ []) (Call.request tool arguments)
          (λ log h t. (e, h.held.0)))

  pub stop-Keeps :
      (run : Text)
      → Keeps
          (Stage run (sealed ∷ []))
          (client_call world (text "simmis_worker-stop") (run_argument run))
  unfolding index list_beq
  stop-Keeps run = final-Keeps run (text "simmis_worker-stop") (run_argument run) refl

  pub complete-Keeps :
      (run : Text) (output : Value)
      → Keeps (Stage run (sealed ∷ [])) (
          client_call world
            (text "simmis_worker-complete")
            (dict ((text "run", str run) ∷ (text "output", output) ∷ [])))
  unfolding index list_beq
  complete-Keeps run output =
      final-Keeps run (text "simmis_worker-complete")
        (dict ((text "run", str run) ∷ (text "output", output) ∷ [])) refl

  pub acknowledge-Keeps :
      (run outcome : Text) (receipt : Value)
      → Keeps (Stage run (sealed ∷ [])) (call world (Call.acknowledge run outcome receipt))
  unfolding Needs
  acknowledge-Keeps run outcome receipt =
      Keeps-needed run world (sealed ∷ []) (Call.acknowledge run outcome receipt)
        (λ log h. (refl, h.held.0))

  report_stop-Keeps :
      (attempted : Bool) (run : Text)
      → Keeps (Stage run (sealed ∷ [])) (report_stop host world attempted run)
  unfolding report_stop
  report_stop-Keeps true run = Keeps-lift (Stage run (sealed ∷ [])) (ok tt)
  report_stop-Keeps false run =
      Keeps-bind (Stage run (sealed ∷ []))
        (client_call world (text "simmis_worker-stop") (run_argument run)) _ (stop-Keeps run)
        λ receipt.
          Keeps-bind (Stage run (sealed ∷ []))
            (call world (Call.acknowledge run (text "stopped") receipt)) (λ _. done tt)
            (acknowledge-Keeps run (text "stopped") receipt)
            (λ _. Keeps-lift (Stage run (sealed ∷ [])) (ok tt))

  abort_unit-Keeps :
      (identity launch : Option Value) (run : Text)
      → Keeps (Stage run []) (abort_unit host world identity launch run)
  unfolding abort_unit
  abort_unit-Keeps none launch run =
      abort_launched-Keeps world (Has run []) (Has-logged run []) launch
  abort_unit-Keeps (some identity) launch run =
      Triple-bind (call world (Call.load run)) _ (Triple-load run world []) λ chain.
        Triple-bind (stop_run host world chain.stopped run identity) _
          (stop_run-Triple chain.stopped run identity)
          λ _.
            Triple-bind {Q = λ c. Stage run (sealed ∷ [])} (get (λ s. s.control)) _
              (Triple-get (λ s. s.control) (λ s p. p))
              λ c.
                Triple-mono (report_stop host world c.publication_attempted run) (λ s p. p)
                  (λ a s p. Has-forget run (sealed ∷ []) s.log p)
                  (λ s p. Has-forget run (sealed ∷ []) s.log p)
                  (report_stop-Keeps c.publication_attempted run)

  -- `_abort`, whatever of the run it finds.
  pub abort-Keeps : (run : Text) → Keeps (Stage run []) (abort host world run)
  unfolding abort
  abort-Keeps run =
      Keeps-bind (Stage run []) (get (λ s. s.control)) _ (Keeps-get (Stage run []) (λ s. s.control))
        λ c.
          Keeps-when (Stage run []) c.observer (abort_unit host world c.identity c.launch run)
            (abort_unit-Keeps c.identity c.launch run)

  cleaned-Keeps :
      (run : Text) (r : Result (Unit {0})) → Keeps (Stage {W = W} run []) (cleaned host world r)
  unfolding cleaned
  cleaned-Keeps run (ok u) = Keeps-lift (Stage run []) (ok tt)
  cleaned-Keeps run (err e) = Keeps-lift (Stage run []) (err runtime_error)

  abort_once-Keeps :
      (attempted : Bool) (run : Text) → Keeps (Stage run []) (abort_once host world attempted run)
  unfolding abort_once
  abort_once-Keeps true run = Keeps-lift (Stage run []) (ok tt)
  abort_once-Keeps false run =
      Keeps-bind (Stage run []) (attempt (abort host world run)) (cleaned host world)
        (Keeps-attempt (Stage run []) (abort host world run) (abort-Keeps run)) (cleaned-Keeps run)

  pub recover-Keeps :
      (run : Text) (r : Result Value) → Keeps (Stage run []) (recover host world run r)
  unfolding recover
  recover-Keeps run (ok v) = Keeps-lift (Stage run []) (ok v)
  recover-Keeps run (err e) =
      Keeps-bind (Stage run []) (get (λ s. s.control)) _ (Keeps-get (Stage run []) (λ s. s.control))
        λ c.
          Keeps-bind (Stage run []) (abort_once host world c.publication_attempted run)
            (λ _. raise e) (abort_once-Keeps c.publication_attempted run)
            (λ _. Keeps-lift (Stage run []) (err e))
