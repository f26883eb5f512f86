-- ===== src/Controller/Serviced.antt =====
-- What the lease's service calls keep: a property of the calls that the plain ones keep.
use simmis.Prelude.{
  require, ℕ, zero, suc, ◌≡◌, refl, Bool, true, false, List, Option, none, some, contains, list_eq,
  nat_eq, list_beq, Result, ok, err,
}
use simmis.Controller.Order.{
  turn-Keeps, acts, Keeps-finally, close_client-Keeps, spawn_client-Keeps, is_inquiry, is_plain,
  IsLogged, On, Keeps-lift, Keeps-bind, Keeps-get, Keeps-change, Keeps-when, Keeps-attempt,
  Keeps-call,
}
use simmis.Controller.Calls.{
  Answer, close_client, spawn_client, Served, Call, Entry, Lease, State, World, call, change,
  request, begin, turn, finish,
}
use simmis.Controller.Lease.{
  is_open, tools, require_live, abort_launched, stop_if, stop_or_abort, request_stop, terminate,
  on_reply, exchange, client_call, enter, leave_if, leave, status, renew, renew_if_due, check_fresh,
  tick, input_call, rounds, serviced,
}
use simmis.Program.{M, lift, done, raise, ensure, get, attempt, finally}
use simmis.Program.Triple.{Triple, Keeps, Triple-bind}
use simmis.Value.{Text, Value}

pub ruleset plain =
    (Keeps-lift, Keeps-bind, Keeps-get, Keeps-change, Keeps-when, Keeps-attempt, Keeps-call, acts)

module _ {W : Type 0} (world : World W) (P : List Entry → Type 0) (logged : IsLogged P) where
  pub require_live-Keeps : (receipt : Value) → Keeps (On P) (require_live world receipt)
  unfolding require_live is_plain
  require_live-Keeps receipt = search plain depth 30

  pub abort_launched-Keeps : (launch : Option Value) → Keeps (On P) (abort_launched world launch)
  unfolding abort_launched is_plain
  abort_launched-Keeps none = search plain
  abort_launched-Keeps (some launch) = search plain depth 20

  stop_if-Keeps :
      (t : Bool) (identity : Value) (launch : Option Value)
      → Keeps (On P) (stop_if world t identity launch)
  unfolding stop_if is_plain
  stop_if-Keeps true identity launch = Keeps-call world P logged (Call.stop_unit identity) refl
  stop_if-Keeps false identity launch = abort_launched-Keeps launch

  stop_or_abort-Keeps :
      (identity launch : Option Value) → Keeps (On P) (stop_or_abort world identity launch)
  unfolding stop_or_abort is_plain
  stop_or_abort-Keeps none launch = abort_launched-Keeps launch
  stop_or_abort-Keeps (some identity) launch = search (plain, stop_if-Keeps) depth 20

  pub request_stop-Keeps : Keeps (On P) (request_stop world)
  unfolding request_stop
  request_stop-Keeps = search (plain, stop_or_abort-Keeps) depth 12

  terminate-Keeps : Keeps (On P) (terminate world)
  unfolding terminate is_plain
  terminate-Keeps = search plain depth 12

  on_reply-Keeps :
      {A : Type 0} (on_failure : M (State W) (Unit {0})) (r : Result A)
      → Keeps (On P) on_failure
      → Keeps (On P) (on_reply world on_failure r)
  unfolding on_reply
  on_reply-Keeps on_failure (ok v) k = search plain
  on_reply-Keeps on_failure (err e) k =
      Keeps-bind (On P) (finally on_failure (terminate world)) (λ _. raise e)
        (Keeps-finally (On P) on_failure (terminate world) k terminate-Keeps)
        (λ _. Keeps-lift (On P) (err e))

  -- An exchange with the helper keeps what its call keeps.
  pub exchange-Keeps :
      (on_failure : M (State W) (Unit {0})) (c : Call)
      → Keeps (On P) on_failure
      → Keeps (On P) (call world c)
      → Keeps (On P) (exchange world on_failure c)
  unfolding exchange
  exchange-Keeps on_failure c k t =
      Keeps-bind (On P) (get (λ s. s.control)) _ (Keeps-get (On P) (λ s. s.control)) λ control.
        Keeps-bind (On P) (lift (is_open control.connected)) _
          (Keeps-lift (On P) (is_open control.connected))
          λ _.
            Keeps-bind (On P) (attempt (call world c)) (on_reply world on_failure)
              (Keeps-attempt (On P) (call world c) t) (λ r. on_reply-Keeps on_failure r k)

  pub client_call-Keeps :
      (tool : Text) (arguments : Value)
      → Keeps (On P) (call world (request tool arguments))
      → Keeps (On P) (client_call world tool arguments)
  unfolding client_call
  client_call-Keeps tool arguments t =
      Keeps-bind (On P) (ensure (contains tools tool)) _
        (Keeps-lift (On P) (require (contains tools tool)))
        λ _. exchange-Keeps (request_stop world) (request tool arguments) request_stop-Keeps t

  pub inquiry-Keeps :
      (tool : Text) (arguments : Value)
      → is_inquiry tool ≡ true
      → Keeps (On P) (client_call world tool arguments)
  unfolding is_plain
  inquiry-Keeps tool arguments e =
      client_call-Keeps tool arguments (Keeps-call world P logged (request tool arguments) e)

  pub enter-Keeps :
      (on_failure : M (State W) (Unit {0})) (opening : Call)
      → Keeps (On P) on_failure
      → is_plain opening ≡ true
      → Keeps (On P) (enter world on_failure opening)
  unfolding enter is_plain
  enter-Keeps on_failure opening k e =
      Keeps-bind (On P) (call world spawn_client) _ (spawn_client-Keeps world P logged) λ _.
        Keeps-bind (On P) (change _) _ (Keeps-change P (λ c. record c { connected = true })) λ _.
          Keeps-bind (On P) (exchange world on_failure opening) (λ _. done tt)
            (exchange-Keeps on_failure opening k (Keeps-call world P logged opening e))
            (λ _. Keeps-lift (On P) (ok tt))

  leave_if-Keeps :
      (t : Bool) (on_failure : M (State W) (Unit {0}))
      → Keeps (On P) on_failure
      → Keeps (On P) (leave_if world t on_failure)
  unfolding leave_if is_plain
  leave_if-Keeps true on_failure k =
      Keeps-bind (On P) (attempt (exchange world on_failure close_client)) (λ _. done tt)
        (Keeps-attempt (On P) (exchange world on_failure close_client)
          (exchange-Keeps on_failure close_client k (close_client-Keeps world P logged)))
        (λ _. Keeps-lift (On P) (ok tt))
  leave_if-Keeps false on_failure k = search plain

  pub leave-Keeps :
      (on_failure : M (State W) (Unit {0}))
      → Keeps (On P) on_failure
      → Keeps (On P) (leave world on_failure)
  unfolding leave
  leave-Keeps on_failure k =
      Keeps-bind (On P) (get (λ s. s.control)) _ (Keeps-get (On P) (λ s. s.control)) λ control.
        Keeps-bind (On P) (leave_if world control.connected on_failure) (λ _. terminate world)
          (leave_if-Keeps control.connected on_failure k) (λ _. terminate-Keeps)

  module _ (interval : ℕ) (ticket : Value) where
    pub status-Keeps : Keeps (On P) (status world interval ticket)
    unfolding status is_plain is_inquiry list_beq
    status-Keeps = search (plain, inquiry-Keeps) depth 40 fits 2000

    renew-Keeps : Keeps (On P) (renew world interval ticket)
    unfolding renew
    renew-Keeps = search (plain, status-Keeps, require_live-Keeps) depth 12

    renew_if_due-Keeps :
        (t : Bool) (lease : Lease) → Keeps (On P) (renew_if_due world interval ticket t lease)
    unfolding renew_if_due is_plain
    renew_if_due-Keeps true lease = renew-Keeps
    renew_if_due-Keeps false lease = search (plain, renew-Keeps) depth 12

    check_fresh-Keeps :
        (next : Option ℕ) (valid_until : ℕ)
        → Keeps (On P) (check_fresh world interval ticket next valid_until)
    unfolding check_fresh is_plain
    check_fresh-Keeps none valid_until = search plain
    check_fresh-Keeps (some n) valid_until = search plain depth 12

    pub tick-Keeps : (force : Bool) → Keeps (On P) (tick world interval ticket force)
    unfolding tick
    tick-Keeps force = search (plain, check_fresh-Keeps, renew_if_due-Keeps) depth 16

    pub input_call-Keeps :
        (tool : Text) (arguments : Value)
        → is_inquiry tool ≡ true
        → Keeps (On P) (input_call world interval ticket tool arguments)
    unfolding input_call
    input_call-Keeps tool arguments e =
        Keeps-bind (On P) (tick world interval ticket false) (λ _. client_call world tool arguments)
          (tick-Keeps false) (λ _. inquiry-Keeps tool arguments e)

    rounds-Keeps : (n : ℕ) (served : Served) → Keeps (On P) (rounds world interval ticket n served)
    unfolding rounds is_plain
    rounds-Keeps zero served = search plain
    rounds-Keeps (suc n) served =
        Keeps-bind (On P) (tick world interval ticket false) _ (tick-Keeps false) λ _.
          Keeps-bind (On P) (call world (turn served)) (λ _. rounds world interval ticket n served)
            (turn-Keeps world P logged served) (λ _. rounds-Keeps n served)

    -- What a serviced operation reaches at its end.
    pub serviced-Triple :
        (served : Served) {Q : Answer served → State W → Type 0}
        → Keeps (On P) (call world (begin served))
        → Triple (On P) (call world (finish served)) Q (On P)
        → Triple (On P) (serviced world interval ticket served) Q (On P)
    unfolding serviced
    serviced-Triple served t e = Triple-bind {Q = λ _. On P} (call world (begin served)) _ t λ n.
        Triple-bind {Q = λ _. On P} (rounds world interval ticket n served)
          (λ _. call world (finish served)) (rounds-Keeps n served) (λ _. e)

    -- A serviced operation keeps what its beginning keeps.
    pub serviced-Keeps :
        (served : Served)
        → Keeps (On P) (call world (begin served))
        → Keeps (On P) (serviced world interval ticket served)
    unfolding serviced is_plain
    serviced-Keeps served t = Keeps-bind (On P) (call world (begin served)) _ t λ n.
        Keeps-bind (On P) (rounds world interval ticket n served) (λ _. call world (finish served))
          (rounds-Keeps n served) (λ _. Keeps-call world P logged (finish served) refl)
