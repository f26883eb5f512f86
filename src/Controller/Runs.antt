-- ===== src/Controller/Runs.antt =====
-- The order of the calls in the body of `Controller.run`.
use simmis.Prelude.{
  type_error, subst, ok-injective, ◌+◌, ◌≡◌, refl, true, false, List, [], ◌∷◌, Option, none, some,
  list_eq, nat_eq, list_beq, ◌==◌, Result, ok, err,
}
use simmis.Controller.Steps.{Settings, go, check_ready, check_complete, seal_stopped}
use simmis.Controller.Run.{launch_guard, force, start, await_ready, execute, publish, attempt_run}
use simmis.Controller.Ordered.{
  Keeps-needed, Fact, prepared, captured, admitted, sealed, Has, Has-logged, Has-forget,
  Triple-Grants, Needs, Grants,
}
use simmis.Controller.Order.{
  is_inquiry, is_plain, On, Keeps-lift, Keeps-bind, Keeps-get, Keeps-change, Keeps-finally,
  Keeps-call,
}
use simmis.Program.{M, ◌>>=◌, ◌>>◌, lift, get, done, finally}
use simmis.Program.Triple.{
  Triple, Keeps, Outcome, Triple-lift, Triple-lift_bind, Triple-bind, Triple-mono,
}
use simmis.Controller.Calls.{writing, reading, waiting, Call, State, World, call, recorded, change}
use simmis.Controller.Lease.{client_call, input_call, serviced, nat_of}
use simmis.Controller.Serviced.{tick-Keeps, input_call-Keeps, serviced-Keeps, serviced-Triple}
use simmis.Controller.Aborted.{
  Stage, weaken, quietly-Triple, seal_stopped-Triple, complete-Keeps, acknowledge-Keeps,
}
use simmis.Inputs.Fetch.{fetch}
use simmis.Inputs.Fetch.Kept.{fetch-Keeps}
use simmis.Host.{Host}
use simmis.Value.{Text, text, Bytes, Value, str, index}

-- The request of a run is a line of JSON, and never the bytes of GO.
pub record IsRequesting {W : Type 0} (world : World W) : Type 0 where
  pub request :
      (frozen : Value) (argv sci : Option Value) (w : W)
      → Outcome
          (λ bytes _. bytes == go ≡ false)
          (λ _. Unit {0})
          (world (Call.encode_request frozen argv sci) w)

-- What is known of a result is known to what follows.
given :
    {S A : Type 0} {F : Type 0} (P : S → Type 0) {Q : A → S → Type 0} {R : S → Type 0} (m : M S A)
    → (F → Triple P m Q R)
    → Triple (λ s. P s × F) m Q R
given P m t = record { runs = λ s p. (t p.1).runs s p.0 }

module _ (host : Host) {W : Type 0} (world : World W) (requesting : IsRequesting world) where
  -- The request that was encoded.
  encoded-Triple :
      (run : Text) (frozen : Value) (argv sci : Option Value)
      → Triple
          (Stage run [])
          (call world (Call.encode_request frozen argv sci))
          (λ bytes s. Stage run [] s × (bytes == go ≡ false))
          (Stage run [])
  unfolding is_plain
  encoded-Triple run frozen argv sci = record {
    runs = λ s p.
        both (world (Call.encode_request frozen argv sci) s.world) s p
          (requesting.request frozen argv sci s.world);
  }
    where
      both :
          (o : Result Bytes × W) (s : State W)
          → Stage run [] s
          → Outcome (λ bytes _. bytes == go ≡ false) (λ _. Unit {0}) o
          → Outcome
              (λ bytes s'. Stage run [] s' × (bytes == go ≡ false))
              (Stage run [])
              (recorded (Call.encode_request frozen argv sci) o s)
      both (ok bytes, w) s p e = (
        (Has-logged run []).plain (Call.encode_request frozen argv sci) (ok bytes) s.log refl p,
        e,
      )
      both (err x, w) s p e =
          (Has-logged run []).plain (Call.encode_request frozen argv sci) (err x) s.log refl p

  module _ (settings : Settings) (run : Text) (ticket : Value) (sci : Option Value) where
    pub force-Keeps :
        (fs : List Fact) → Keeps (Stage run fs) (force host world settings run ticket sci)
    force-Keeps fs = tick-Keeps world (Has run fs) (Has-logged run fs) settings.interval ticket true

    -- The unit with this identity is admitted.
    abbrev admission : Value → List Fact
    admission identity = admitted identity ∷ captured identity ∷ []

    abbrev Admitted : Value → State W → Type 0
    Admitted identity = Stage run (admission identity)

    execute-Keeps :
        (identity frozen : Value)
        → Keeps (Admitted identity) (execute host world settings run ticket sci frozen)
    unfolding execute is_plain Needs check_complete
    execute-Keeps identity frozen =
        let logged = Has-logged run (admission identity) in
        let P = Has run (admission identity) in
        Keeps-bind (On P) (call world Call.monotonic_ms) _
          (Keeps-call world P logged Call.monotonic_ms refl)
          λ now.
            Keeps-bind (On P) (serviced world settings.interval ticket (writing go (now + 5000))) _
              (serviced-Keeps world P logged settings.interval ticket (writing go (now + 5000)) (
                Keeps-needed run world (admission identity) (Call.begin (writing go (now + 5000)))
                  (λ log h t. (identity, h.held.1.0, h.held.0))))
              λ _.
                Keeps-bind (On P) (call world Call.monotonic_ms) _
                  (Keeps-call world P logged Call.monotonic_ms refl)
                  λ at_go.
                    Keeps-bind (On P) (lift (index frozen (text "limits"))) _
                      (Keeps-lift (On P) (index frozen (text "limits")))
                      λ limits.
                        Keeps-bind (On P) (lift (nat_of limits (text "timeout-ms"))) _
                          (Keeps-lift (On P) (nat_of limits (text "timeout-ms")))
                          λ timeout.
                            Keeps-bind (On P)
                              (serviced world settings.interval ticket
                                (reading (at_go + timeout + 10000)))
                              _
                              (serviced-Keeps world P logged settings.interval ticket
                                (reading (at_go + timeout + 10000))
                                (Keeps-call world P logged
                                  (Call.begin (reading (at_go + timeout + 10000))) refl))
                              λ complete. search (Keeps-lift, Keeps-bind) depth 40

    publish-Keeps :
        (output : Value)
        → Keeps (Stage run (sealed ∷ [])) (publish host world settings run ticket sci output)
    unfolding publish
    publish-Keeps output =
        let P = Has run (sealed ∷ []) in
        Keeps-bind (On P) (force host world settings run ticket sci) _ (force-Keeps (sealed ∷ []))
          λ _.
            Keeps-bind (On P) (change _) _
              (Keeps-change P (λ c. record c { publication_attempted = true }))
              λ _.
                Keeps-bind (On P) (client_call world (text "simmis_worker-complete") _) _
                  (complete-Keeps host world run output)
                  λ receipt. acknowledge-Keeps host world run (text "completed") receipt

    launch_guard-Keeps :
        (launch frozen : Value)
        → Keeps
            (Stage run (prepared launch ∷ []))
            (launch_guard host world settings run ticket sci launch frozen)
    unfolding launch_guard Needs
    launch_guard-Keeps launch frozen =
        let P = Has run (prepared launch ∷ []) in
        Triple-lift_bind (index launch (text "unit")) _
          (λ name named.
            Keeps-bind (On P) (lift (index frozen (text "limits"))) _
              (Keeps-lift (On P) (index frozen (text "limits")))
              λ limits.
                Keeps-bind (On P) (lift (index limits (text "timeout-ms"))) _
                  (Keeps-lift (On P) (index limits (text "timeout-ms")))
                  λ timeout.
                    Keeps-needed run world (prepared launch ∷ [])
                      (Call.launch_unit name timeout sci) (λ log h. (launch, named, h.held.0)))
          (λ s p. p)

    -- The launch, which its record precedes, and the frames.
    abbrev launch_all : Value → Value → Bytes → M (State W) (Value × Bytes)
    launch_all frozen launch encoded = do
      change (λ c. record c { launch = some launch })
      call world Call.open_frames
      change (λ c. record c { frames = true })
      finally (launch_guard host world settings run ticket sci launch frozen)
          (call world Call.close_child_ends)
      done (frozen, encoded)

    launch_all-Triple :
        (frozen launch : Value) (encoded : Bytes)
        → encoded == go ≡ false
        → Triple
            (Stage run (prepared launch ∷ []))
            (launch_all frozen launch encoded)
            (λ p s. Stage run [] s × (p.1 == go ≡ false))
            (Stage run [])
    unfolding is_plain
    launch_all-Triple frozen launch encoded e =
        let fs = prepared launch ∷ [] in
        let P = Has run fs in
        let logged = Has-logged run fs in
        let guard = launch_guard host world settings run ticket sci launch frozen in
        let launched = finally guard (call world Call.close_child_ends) in
        Triple-bind {Q = λ _. Stage run fs} (change (λ c. record c { launch = some launch })) _
          (weaken run fs (change (λ c. record c { launch = some launch }))
            (Keeps-change P (λ c. record c { launch = some launch })))
          λ _.
            Triple-bind {Q = λ _. Stage run fs} (call world Call.open_frames) _
              (weaken run fs (call world Call.open_frames)
                (Keeps-call world P logged Call.open_frames refl))
              λ _.
                Triple-bind {Q = λ _. Stage run fs} (change (λ c. record c { frames = true })) _
                  (weaken run fs (change (λ c. record c { frames = true }))
                    (Keeps-change P (λ c. record c { frames = true })))
                  λ _.
                    Triple-bind {Q = λ _. Stage run fs} launched _
                      (weaken run fs launched (
                        Keeps-finally (On P) guard (call world Call.close_child_ends)
                          (launch_guard-Keeps launch frozen)
                          (Keeps-call world P logged Call.close_child_ends refl)))
                      λ _.
                        Triple-lift (ok (frozen, encoded))
                          (λ a s h p. (
                            Has-forget run fs s.log p,
                            subst (λ (q : Value × Bytes). q.1 == go ≡ false) (ok-injective h) e,
                          ))
                          (λ x s h p. Has-forget run fs s.log p)

    start-Triple :
        (argv : Option Value)
        → Triple
            (Stage run [])
            (start host world settings run ticket sci argv)
            (λ p s. Stage run [] s × (p.1 == go ≡ false))
            (Stage run [])
    unfolding start is_plain Grants is_inquiry list_beq
    start-Triple argv =
        Triple-bind {Q = λ _. Stage run []}
          (fetch host (input_call world settings.interval ticket) (str run) settings.config) _
          (fetch-Keeps host (input_call world settings.interval ticket) (Stage run [])
            (λ arguments.
              input_call-Keeps world (Has run []) (Has-logged run []) settings.interval ticket
                (text "simmis_worker-input") arguments refl)
            (str run) settings.config)
          λ frozen.
            Triple-bind (call world (Call.encode_request frozen argv sci)) _
              (encoded-Triple run frozen argv sci)
              λ encoded. given (Stage run []) _ λ e.
                Triple-bind {Q = λ _. Stage run []} (force host world settings run ticket sci) _
                  (force-Keeps [])
                  λ _.
                    Triple-bind (call world (Call.prepare run ticket frozen sci)) _
                      (Triple-Grants run world [] (Call.prepare run ticket frozen sci) prepared refl
                        (λ v. (refl, refl)))
                      λ launch. launch_all-Triple frozen launch encoded e

    -- The identity that the observer has captured is kept.
    captured-Triple :
        (name : Value)
        → Triple
            (Stage run [])
            (call world (Call.capture name) >>= λ identity.
              change (λ c. record c { identity = some identity }) >> done identity)
            (λ identity. Stage run (captured identity ∷ []))
            (Stage run [])
    unfolding is_plain Grants
    captured-Triple name =
        Triple-bind (call world (Call.capture name)) _
          (Triple-Grants run world [] (Call.capture name) captured refl (λ v. refl))
          λ identity.
            let fs = captured identity ∷ [] in
            Triple-bind {Q = λ _. Stage run fs} (change _) _
              (weaken run fs (change _)
                (Keeps-change (Has run fs) (λ c. record c { identity = some identity })))
              λ _.
                Triple-lift (ok identity)
                  (λ a s e p.
                    subst (λ (v : Value). Stage run (captured v ∷ []) s) (ok-injective e) p)
                  (λ x s e p. Has-forget run fs s.log p)

    check_ready-Keeps :
        (frozen ready : Value) → Keeps (Stage run []) (check_ready host world frozen sci ready)
    unfolding check_ready
    check_ready-Keeps frozen ready = search (Keeps-lift, Keeps-bind) depth 30

    await_ready-Triple :
        (frozen : Value) (encoded : Bytes)
        → encoded == go ≡ false
        → Triple
            (Stage run [])
            (await_ready host world settings run ticket sci frozen encoded)
            (λ identity. Stage run (captured identity ∷ []))
            (Stage run [])
    unfolding await_ready is_plain Needs
    await_ready-Triple frozen encoded e =
        let P = Has run [] in
        let logged = Has-logged run [] in
        Triple-bind {Q = λ _. On P} (call world Call.monotonic_ms) _
          (Keeps-call world P logged Call.monotonic_ms refl)
          λ now.
            Triple-bind {Q = λ _. On P}
              (serviced world settings.interval ticket (writing encoded (now + 25000))) _
              (serviced-Keeps world P logged settings.interval ticket
                (writing encoded (now + 25000))
                (Keeps-needed run world [] (Call.begin (writing encoded (now + 25000)))
                  (λ log h t. cc)))
              λ _.
                Triple-bind {Q = λ _. On P}
                  (serviced world settings.interval ticket (reading (now + 25000))) _
                  (serviced-Keeps world P logged settings.interval ticket (reading (now + 25000))
                    (Keeps-call world P logged (Call.begin (reading (now + 25000))) refl))
                  λ ready.
                    Triple-bind {Q = λ _. On P} (check_ready host world frozen sci ready) _
                      (check_ready-Keeps frozen ready)
                      λ _.
                        Triple-bind {Q = λ _. On P} (get (λ s. s.control)) _
                          (Keeps-get (On P) (λ s. s.control))
                          λ c.
                            let known : Result Value = elim c.launch [
                              | none ↦ err type_error
                              | some launch ↦ ok launch
                            ] in
                            Triple-bind {Q = λ _. On P} (lift known) _ (Keeps-lift (On P) known)
                              λ launch.
                                Triple-bind {Q = λ _. On P} (lift (index launch (text "unit"))) _
                                  (Keeps-lift (On P) (index launch (text "unit"))) captured-Triple

    -- The body of `try`.
    pub attempt_run-Keeps :
        (argv : Option Value)
        → Triple
            (Stage run [])
            (attempt_run host world settings run ticket sci argv)
            (λ _. Stage run [])
            (Stage run [])
    unfolding attempt_run is_plain Grants
    attempt_run-Keeps argv =
        Triple-bind (start host world settings run ticket sci argv) _ (start-Triple argv) λ p.
          given (Stage run []) _ λ e.
            Triple-bind (await_ready host world settings run ticket sci p.0 p.1) _
              (await_ready-Triple p.0 p.1 e)
              λ identity.
                let fs = admission identity in
                Triple-bind (call world (Call.admit run identity)) _
                  (Triple-Grants run world (captured identity ∷ []) (Call.admit run identity)
                    (λ _. admitted identity) refl (λ v. (refl, refl)))
                  λ _.
                    Triple-bind (force host world settings run ticket sci) _
                      (weaken run fs (force host world settings run ticket sci) (force-Keeps fs))
                      λ _.
                        Triple-bind {Q = λ _. Stage run []}
                          (execute host world settings run ticket sci p.0) _
                          (Triple-mono (execute host world settings run ticket sci p.0) (λ s q. q)
                            (λ a s q. Has-forget run fs s.log q) (λ s q. Has-forget run fs s.log q)
                            (execute-Keeps identity p.0))
                          λ output.
                            let wait = serviced world settings.interval ticket (waiting identity) in
                            Triple-bind (seal_stopped host world wait run identity (some output)) _
                              (seal_stopped-Triple host world wait run identity (some output) (
                                serviced-Triple world (Has run []) (Has-logged run [])
                                  settings.interval ticket (waiting identity)
                                  (Keeps-call world (Has run []) (Has-logged run [])
                                    (Call.begin (waiting identity)) refl)
                                  (quietly-Triple host world run identity)))
                              λ _.
                                Triple-mono (publish host world settings run ticket sci output)
                                  (λ s q. q) (λ a s q. Has-forget run (sealed ∷ []) s.log q)
                                  (λ s q. Has-forget run (sealed ∷ []) s.log q)
                                  (publish-Keeps output)
