-- ===== src/Controller/Settled.antt =====
-- The order of the calls in `reconcile`.
use simmis.Prelude.{
  subst, ◌≡◌, refl, Bool, true, false, ◌&&◌, not, [], ◌∷◌, Option, none, some, list_eq, nat_eq,
  Result, ok, err, require, value_error,
}
use simmis.Program.{M, ◌>>=◌, ◌>>◌, lift, ensure, get, within}
use simmis.Program.Triple.{
  Triple, Keeps, Outcome, Triple-lift, Triple-lift_bind, Triple-bind, Triple-mono,
}
use simmis.Controller.Calls.{Call, State, World, call, change}
use simmis.Controller.Lease.{request_stop, enter, leave}
use simmis.Controller.Order.{
  is_plain, On, Keeps-lift, Keeps-bind, Keeps-get, Keeps-change, Keeps-call,
}
use simmis.Controller.Serviced.{plain, request_stop-Keeps, enter-Keeps, leave-Keeps, status-Keeps}
use simmis.Controller.Ordered.{sealed, Has, Has-logged, Has-forget, Triple-load, Holds, IsOrdered}
use simmis.Controller.Aborted.{
  Stage, weaken, quietly-Triple, seal_stopped-Triple, complete-Keeps, stop-Keeps, acknowledge-Keeps,
}
use simmis.Controller.Steps.{Settings, is_some, seal_stopped, quietly}
use simmis.Controller.Reconcile.{
  the, is_packaged, known_launch, stop_retained, report, settle, told, resume, reconcile_locked,
  reconcile,
}
use simmis.Controller.Whole.{Keeps-within, str-injective}
use simmis.Host.{Host}
use simmis.Inputs.{canonical_uuid}
use simmis.Inputs.Validate.{canonical_uuid-eq-ok}
use simmis.Journal.Validate.{same_text}
use simmis.Value.{Text, text, Value, str, index}

module _ (host : Host) {W : Type 0} (world : World W) where
  -- In order, and the stop is on record if a chain says so.
  abbrev Loaded : Text → Option Value → State W → Type 0
  Loaded run stopped = On (λ log. Has run [] log × (is_some stopped ≡ true → Holds run sealed log))

  abbrev Sealed : Text → State W → Type 0
  Sealed run = Stage run (sealed ∷ [])

  known_launch-Keeps :
      (P : State W → Type 0) (settings : Settings) (ticket : Value)
      (launch admission : Option Value)
      → Keeps P (known_launch host world settings ticket launch admission)
  unfolding known_launch
  known_launch-Keeps P settings ticket (some launch) (some admission) =
      search (Keeps-lift, Keeps-bind) depth 40
  known_launch-Keeps P settings ticket _ _ = Keeps-lift P (err value_error)

  -- The unit that is left is stopped, and this is put on record.
  retained-Keeps :
      (run : Text) (launch identity : Value)
      → Triple
          (Stage run [])
          (stop_retained host world none run launch identity)
          (λ _. Sealed run)
          (Stage run [])
  unfolding stop_retained is_plain
  retained-Keeps run launch identity =
      let P = Has run [] in
      let logged = Has-logged run [] in
      let fs = sealed ∷ [] in
      Triple-bind {Q = λ _. Stage run []} (lift (is_packaged launch)) _
        (Keeps-lift (Stage run []) (is_packaged launch))
        λ sci.
          Triple-bind {Q = λ _. Stage run []} (call world (Call.start_observer sci)) _
            (Keeps-call world P logged (Call.start_observer sci) refl)
            λ _.
              Triple-bind {Q = λ _. Stage run []} (change _) _
                (Keeps-change P (λ c. record c { observer = true }))
                λ _.
                  Triple-bind {Q = λ _. Stage run []} (call world (Call.retain identity)) _
                    (Keeps-call world P logged (Call.retain identity) refl)
                    λ _.
                      Triple-bind {Q = λ _. Stage run []} (call world (Call.stop_unit identity)) _
                        (Keeps-call world P logged (Call.stop_unit identity) refl)
                        λ _.
                          Triple-bind
                            (seal_stopped host world (quietly host world identity) run identity
                              none)
                            _
                            (seal_stopped-Triple host world (quietly host world identity) run
                              identity none (quietly-Triple host world run identity))
                            λ _.
                              Triple-bind {Q = λ _. Sealed run} (call world (Call.load run)) _
                                (weaken run fs (call world (Call.load run)) (
                                  Keeps-call world (Has run fs) (Has-logged run fs) (Call.load run)
                                    refl))
                                λ chain.
                                  weaken run fs (lift (the chain.stopped))
                                    (Keeps-lift (Sealed run) (the chain.stopped))

  stop_retained-Triple :
      (stopped : Option Value) (run : Text) (launch identity : Value)
      → Triple
          (Loaded run stopped)
          (stop_retained host world stopped run launch identity)
          (λ _. Sealed run)
          (Stage run [])
  unfolding stop_retained is_some
  stop_retained-Triple none run launch identity =
      Triple-mono (stop_retained host world none run launch identity) (λ s p. p.0) (λ a s p. p)
        (λ s p. p) (retained-Keeps run launch identity)
  stop_retained-Triple (some stopped) run launch identity =
      Triple-lift (ok stopped) (λ a s e p. record { ordered = p.0.ordered; held = (p.1 refl, tt) })
        (λ x s e p. p.0)

  report-Keeps :
      (publishing : Bool) (run : Text) (output : Value)
      → Keeps (Sealed run) (report host world publishing run output)
  unfolding report
  report-Keeps true run output =
      search (Keeps-lift, Keeps-bind, Keeps-change, complete-Keeps, acknowledge-Keeps) depth 20
  report-Keeps false run output =
      search (Keeps-lift, Keeps-bind, stop-Keeps, acknowledge-Keeps) depth 20

  settle-Keeps :
      (completed : Bool) (run : Text) (receipt stopped : Value)
      → Keeps (Sealed run) (settle host world completed run receipt stopped)
  unfolding settle
  settle-Keeps true run receipt stopped =
      acknowledge-Keeps host world run (text "completed") receipt
  settle-Keeps false run receipt stopped = search (Keeps-lift, Keeps-bind, report-Keeps) depth 30

  told-Keeps :
      (run : Text) (ticket stopped : Value)
      → Keeps (Sealed run) (told host world run ticket stopped)
  unfolding told
  told-Keeps run ticket stopped =
      let logged = Has-logged run (sealed ∷ []) in
      search (plain, logged, status-Keeps, settle-Keeps) depth 30

  resume-Triple :
      (acknowledged : Option Value) (run : Text) (ticket : Value) (stopped : Option Value)
      (p : Value × Value)
      → Triple
          (Loaded run stopped)
          (resume host world acknowledged run ticket stopped p)
          (λ _. Stage run [])
          (Stage run [])
  unfolding resume is_plain
  resume-Triple (some receipt) run ticket stopped p =
      Triple-lift (ok receipt) (λ a s e q. q.0) (λ x s e q. q.0)
  resume-Triple none run ticket stopped (launch, admission) =
      let P = Has run (sealed ∷ []) in
      let logged = Has-logged run (sealed ∷ []) in
      let stop = request_stop-Keeps world P logged in
      Triple-bind {Q = λ _. Loaded run stopped} (lift (index admission (text "identity"))) _
        (Triple-lift (index admission (text "identity")) (λ a s e q. q) (λ x s e q. q.0))
        λ identity.
          Triple-bind {Q = λ _. Loaded run stopped} (change _) _
            (Triple-mono (change _) (λ s q. q) (λ a s q. q) (λ s q. q.0)
              (Keeps-change
                (λ log. Has run [] log × (is_some stopped ≡ true → Holds run sealed log))
                (λ c. record c { launch = some launch; identity = some identity })))
            λ _.
              Triple-bind (stop_retained host world stopped run launch identity) _
                (stop_retained-Triple stopped run launch identity)
                λ kept.
                  Triple-mono
                    (within (enter world (request_stop world) (Call.open_client ticket))
                      (leave world (request_stop world)) (told host world run ticket kept))
                    (λ s q. q) (λ a s q. Has-forget run (sealed ∷ []) s.log q)
                    (λ s q. Has-forget run (sealed ∷ []) s.log q)
                    (Keeps-within (Sealed run)
                      (enter world (request_stop world) (Call.open_client ticket))
                      (leave world (request_stop world)) (told host world run ticket kept)
                      (enter-Keeps world P logged (request_stop world) (Call.open_client ticket)
                        stop refl)
                      (leave-Keeps world P logged (request_stop world) stop)
                      (told-Keeps run ticket kept))

  locked-Keeps :
      (settings : Settings) (run : Text)
      → Keeps (Stage run []) (reconcile_locked host world settings run)
  unfolding reconcile_locked is_plain
  locked-Keeps settings run =
      let P = Has run [] in
      let logged = Has-logged run [] in
      Triple-bind {Q = λ _. Stage run []} (call world (Call.claim_load run)) _
        (Keeps-call world P logged (Call.claim_load run) refl)
        λ ticket.
          Triple-bind {Q = λ _. Stage run []} (lift (index ticket (text "worker"))) _
            (Keeps-lift (Stage run []) (index ticket (text "worker")))
            λ worker.
              Triple-bind {Q = λ _. Stage run []} (lift (index ticket (text "run"))) _
                (Keeps-lift (Stage run []) (index ticket (text "run")))
                λ claimed.
                  Triple-bind {Q = λ _. Stage run []}
                    (ensure (same_text worker (str settings.worker) && same_text claimed (str run)))
                    _
                    (Keeps-lift (Stage run []) (
                      require
                        (same_text worker (str settings.worker) && same_text claimed (str run))))
                    λ _.
                      Triple-bind (call world (Call.load run)) _ (Triple-load run world []) λ chain.
                        Triple-bind {Q = λ _. Loaded run chain.stopped}
                          (known_launch host world settings ticket chain.launch chain.admitted) _
                          (Triple-mono
                            (known_launch host world settings ticket chain.launch chain.admitted)
                            (λ s q. q) (λ a s q. q) (λ s q. q.0)
                            (known_launch-Keeps (Loaded run chain.stopped) settings ticket
                              chain.launch chain.admitted))
                          λ p. resume-Triple chain.acknowledged run ticket chain.stopped p

  reconcile-Keeps :
      (settings : Settings) (run : Text)
      → Keeps (Stage run []) (reconcile host world settings (str run))
  unfolding reconcile is_plain
  reconcile-Keeps settings run =
      let P = Has run [] in
      let logged = Has-logged run [] in
      Triple-lift_bind (canonical_uuid (str run)) _
        (λ run' e.
          subst (λ (n : Text). Keeps (On P) (checked n))
            (str-injective run run' (canonical_uuid-eq-ok (str run) e).0)
            (Keeps-bind (On P) (get (λ s. s.control)) _ (Keeps-get (On P) (λ s. s.control)) λ c.
              Keeps-bind (On P) (ensure (not c.used)) _ (Keeps-lift (On P) (require (not c.used)))
                λ _.
                  Keeps-bind (On P) (change _) _ (Keeps-change P (λ c'. record c' { used = true }))
                    λ _.
                      Keeps-within (On P) (call world Call.lock) (call world Call.unlock)
                        (reconcile_locked host world settings run)
                        (Keeps-call world P logged Call.lock refl)
                        (Keeps-call world P logged Call.unlock refl) (locked-Keeps settings run)))
        (λ s p. p)
    where
      checked : Text → M (State W) Value
      checked n = do
        c ← get (λ s. s.control)
        ensure (not c.used)
        change (λ c'. record c' { used = true })
        within (call world Call.lock) (call world Call.unlock)
            (reconcile_locked host world settings n)

  ended :
      (run : Text) (o : Result Value × State W)
      → Outcome (λ _. Stage run []) (Stage run []) o
      → IsOrdered run o.1.log
  ended run (ok v, s) p = p.ordered
  ended run (err e, s) p = p.ordered

  -- From calls in order for this Run, whatever `Controller.reconcile` calls and whatever of it fails:
  -- a stop is put on record only for this Run, and only with what a wait for a unit to stop has
  -- observed; a unit is released, the server told of a stop or a completion, which are then of this Run, and
  -- this Run's receipt acknowledged, only after this Run's stop is on record.
  pub reconcile-IsOrdered :
      (settings : Settings) (run : Text) (s : State W)
      → IsOrdered run s.log
      → IsOrdered run (reconcile host world settings (str run) s).1.log
  reconcile-IsOrdered settings run s h =
      ended run (reconcile host world settings (str run) s)
        ((reconcile-Keeps settings run).runs s (record { ordered = h; held = tt }))
