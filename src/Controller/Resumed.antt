-- ===== src/Controller/Resumed.antt =====
-- What `reconcile` executes.
use simmis.Prelude.{
  ◌≡◌, refl, sym, subst, Bool, true, false, ◌||◌, not, List, [], ◌∷◌, Option, none, some, list_eq,
  nat_eq, list_beq, list_beq_iff, ◌==◌, Result, ok, err, require, Bool-cases, inl, inr, arith,
  value_error,
}
use simmis.Program.{lift, done, ensure, get}
use simmis.Program.Triple.{Keeps, Outcome}
use simmis.Controller.Calls.{
  waiting, writing, Call, Entry, State, World, call, change, request, begin, launch_unit,
}
use simmis.Controller.Lease.{request_stop, client_call, enter, leave}
use simmis.Controller.Order.{
  is_inquiry, is_plain, IsLogged, On, Keeps-lift, Keeps-bind, Keeps-get, Keeps-change, Keeps-call,
  Triple-call,
}
use simmis.Controller.Serviced.{
  plain, request_stop-Keeps, client_call-Keeps, enter-Keeps, leave-Keeps, status-Keeps,
}
use simmis.Controller.Steps.{Settings, seal_stopped, seal_once, quietly}
use simmis.Controller.Reconcile.{
  known_launch, stop_retained, report, settle, told, resume, reconcile_locked, reconcile,
}
use simmis.Controller.Whole.{Keeps-within}
use simmis.Host.{Host}
use simmis.Inputs.{canonical_uuid}
use simmis.Value.{Text, text, Value, index}

-- A call that claims work, launches a unit or writes to the guard, as GO is.
unfoldable pub is_execution : Call → Bool
unfolding list_beq
is_execution (launch_unit name timeout sci) = true
is_execution (begin (writing bytes deadline)) = true
is_execution (request tool arguments) = tool == text "simmis_worker-claim"
is_execution _ = false

unfoldable pub executes : List Entry → Bool
unfolding is_execution
executes [] = false
executes (e ∷ log) = is_execution e.call || executes log

abbrev Idle : List Entry → Type 0
Idle log = executes log ≡ false

inquiry-idle : (tool : Text) → is_inquiry tool ≡ true → (tool == text "simmis_worker-claim") ≡ false
unfolding is_inquiry list_beq
inquiry-idle tool h = elim (Bool-cases (tool == text "simmis_worker-input")) [
  | inl e ↦
      subst (λ (t : Text). (t == text "simmis_worker-claim") ≡ false)
        (sym ((list_beq_iff tool (text "simmis_worker-input")).0 e)) refl
  | inr e ↦
      subst (λ (t : Text). (t == text "simmis_worker-claim") ≡ false)
        (sym ((list_beq_iff tool (text "simmis_worker-heartbeat")).0 (ground arith))) refl
]

plain-idle : (c : Call) → is_plain c ≡ true → is_execution c ≡ false
unfolding is_plain is_execution
plain-idle (request tool arguments) h = inquiry-idle tool h
plain-idle (begin (writing bytes deadline)) h = let h' = h in ground arith
plain-idle (launch_unit name timeout sci) h = let h' = h in ground arith
plain-idle _ h = refl

Idle-next : (e : Entry) (log : List Entry) → is_execution e.call ≡ false → Idle log → Idle (e ∷ log)
unfolding executes
Idle-next e log h p = ground (arith, h, p)

Idle-logged : IsLogged Idle
Idle-logged = record {
  plain = λ c r log e p. Idle-next (record { call = c; reply = r }) log (plain-idle c e) p;
}

module _ (host : Host) {W : Type 0} (world : World W) where
  Idle-Keeps : (c : Call) → is_execution c ≡ false → Keeps (On Idle) (call world c)
  Idle-Keeps c e =
      Triple-call world c Idle (λ _. Idle) Idle
        (λ r log p. Idle-next (record { call = c; reply = ok r }) log e p)
        (λ x log p. Idle-next (record { call = c; reply = err x }) log e p)

  client-Keeps :
      (tool : Text) (arguments : Value)
      → (tool == text "simmis_worker-claim") ≡ false
      → Keeps (On Idle) (client_call world tool arguments)
  unfolding is_execution
  client-Keeps tool arguments e =
      client_call-Keeps world Idle Idle-logged tool arguments
        (Idle-Keeps (request tool arguments) e)

  release-Keeps : (identity : Value) → Keeps (On Idle) (call world (Call.release identity))
  unfolding is_execution
  release-Keeps identity = Idle-Keeps (Call.release identity) refl

  acknowledge-Keeps :
      (run outcome : Text) (receipt : Value)
      → Keeps (On Idle) (call world (Call.acknowledge run outcome receipt))
  unfolding is_execution
  acknowledge-Keeps run outcome receipt = Idle-Keeps (Call.acknowledge run outcome receipt) refl

  seal_once-Keeps :
      (stopped : Option Value) (run : Text) (observation : Value) (output : Option Value)
      → Keeps (On Idle) (seal_once host world stopped run observation output)
  unfolding seal_once is_execution
  seal_once-Keeps none run observation output = Idle-Keeps (Call.seal run observation output) refl
  seal_once-Keeps (some existing) run observation output = search (Keeps-lift)

  seal_stopped-Keeps :
      (run : Text) (identity : Value) (output : Option Value)
      → Keeps (On Idle) (seal_stopped host world (quietly host world identity) run identity output)
  unfolding seal_stopped is_plain
  seal_stopped-Keeps run identity output =
      Keeps-bind (On Idle) (quietly host world identity) _
        (Keeps-call world Idle Idle-logged (Call.finish (waiting identity)) refl)
        λ observation.
          Keeps-bind (On Idle) (call world (Call.load run)) _
            (Keeps-call world Idle Idle-logged (Call.load run) refl)
            λ chain.
              Keeps-bind (On Idle) (seal_once host world chain.stopped run observation output) _
                (seal_once-Keeps chain.stopped run observation output)
                λ kept.
                  Keeps-bind (On Idle) (call world (Call.release identity)) (λ _. done kept)
                    (release-Keeps identity) (λ _. Keeps-lift (On Idle) (ok kept))

  known_launch-Keeps :
      (settings : Settings) (ticket : Value) (launch admission : Option Value)
      → Keeps (On Idle) (known_launch host world settings ticket launch admission)
  unfolding known_launch
  known_launch-Keeps settings ticket (some launch) (some admission) =
      search (Keeps-lift, Keeps-bind) depth 40
  known_launch-Keeps settings ticket _ _ = Keeps-lift (On Idle) (err value_error)

  stop_retained-Keeps :
      (stopped : Option Value) (run : Text) (launch identity : Value)
      → Keeps (On Idle) (stop_retained host world stopped run launch identity)
  unfolding stop_retained is_plain
  stop_retained-Keeps (some stopped) run launch identity = search (Keeps-lift)
  stop_retained-Keeps none run launch identity =
      let logged = Idle-logged in search (plain, logged, seal_stopped-Keeps) depth 40

  report-Keeps :
      (publishing : Bool) (run : Text) (output : Value)
      → Keeps (On Idle) (report host world publishing run output)
  unfolding report is_execution list_beq
  report-Keeps true run output = search (plain, client-Keeps, acknowledge-Keeps) depth 20
  report-Keeps false run output = search (plain, client-Keeps, acknowledge-Keeps) depth 20

  settle-Keeps :
      (completed : Bool) (run : Text) (receipt stopped : Value)
      → Keeps (On Idle) (settle host world completed run receipt stopped)
  unfolding settle
  settle-Keeps true run receipt stopped = acknowledge-Keeps run (text "completed") receipt
  settle-Keeps false run receipt stopped = search (Keeps-lift, Keeps-bind, report-Keeps) depth 30

  told-Keeps :
      (run : Text) (ticket stopped : Value) → Keeps (On Idle) (told host world run ticket stopped)
  unfolding told
  told-Keeps run ticket stopped =
      let logged = Idle-logged in search (plain, logged, status-Keeps, settle-Keeps) depth 30

  resume-Keeps :
      (acknowledged : Option Value) (run : Text) (ticket : Value) (stopped : Option Value)
      (p : Value × Value)
      → Keeps (On Idle) (resume host world acknowledged run ticket stopped p)
  unfolding resume is_plain
  resume-Keeps (some receipt) run ticket stopped p = search (Keeps-lift)
  resume-Keeps none run ticket stopped (launch, admission) =
      let stop = request_stop-Keeps world Idle Idle-logged in
      Keeps-bind (On Idle) (lift (index admission (text "identity"))) _
        (Keeps-lift (On Idle) (index admission (text "identity")))
        λ identity.
          Keeps-bind (On Idle) (change _) _
            (Keeps-change Idle (λ c. record c { launch = some launch; identity = some identity }))
            λ _.
              Keeps-bind (On Idle) (stop_retained host world stopped run launch identity) _
                (stop_retained-Keeps stopped run launch identity)
                λ kept.
                  Keeps-within (On Idle)
                    (enter world (request_stop world) (Call.open_client ticket))
                    (leave world (request_stop world)) (told host world run ticket kept)
                    (enter-Keeps world Idle Idle-logged (request_stop world)
                      (Call.open_client ticket) stop refl)
                    (leave-Keeps world Idle Idle-logged (request_stop world) stop)
                    (told-Keeps run ticket kept)

  locked-Keeps :
      (settings : Settings) (run : Text)
      → Keeps (On Idle) (reconcile_locked host world settings run)
  unfolding reconcile_locked is_plain
  locked-Keeps settings run =
      let logged = Idle-logged in
      search (plain, logged, known_launch-Keeps, resume-Keeps) depth 40 fits 4000

  reconcile-Keeps :
      (settings : Settings) (run_value : Value)
      → Keeps (On Idle) (reconcile host world settings run_value)
  unfolding reconcile is_plain
  reconcile-Keeps settings run_value =
      Keeps-bind (On Idle) (lift (canonical_uuid run_value)) _
        (Keeps-lift (On Idle) (canonical_uuid run_value))
        λ run.
          Keeps-bind (On Idle) (get (λ s. s.control)) _ (Keeps-get (On Idle) (λ s. s.control)) λ c.
            Keeps-bind (On Idle) (ensure (not c.used)) _
              (Keeps-lift (On Idle) (require (not c.used)))
              λ _.
                Keeps-bind (On Idle) (change _) _
                  (Keeps-change Idle (λ c'. record c' { used = true }))
                  λ _.
                    Keeps-within (On Idle) (call world Call.lock) (call world Call.unlock)
                      (reconcile_locked host world settings run)
                      (Keeps-call world Idle Idle-logged Call.lock refl)
                      (Keeps-call world Idle Idle-logged Call.unlock refl)
                      (locked-Keeps settings run)

  ended :
      (o : Result Value × State W) → Outcome (λ _. On Idle) (On Idle) o → executes o.1.log ≡ false
  ended (ok v, s) p = p
  ended (err e, s) p = p

  -- Where nothing was executed before, `Controller.reconcile` claims no work, launches no unit and writes nothing to a guard, GO the least,
  -- whatever the records say, whatever the server answers and whatever fails.
  pub reconcile-executes :
      (settings : Settings) (run_value : Value) (s : State W)
      → executes s.log ≡ false
      → executes (reconcile host world settings run_value s).1.log ≡ false
  reconcile-executes settings run_value s h =
      ended (reconcile host world settings run_value s)
        ((reconcile-Keeps settings run_value).runs s h)
