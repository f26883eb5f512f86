-- ===== src/Controller/Lease.antt =====
-- `Lease`, `require_live` and `_request_stop`, and the client's calls, which request a stop where they fail.
use simmis.Prelude.{
  os_error, pos, list_beq, ℕ, ◌+◌, ◌-◌, zero, suc, min, Bool, true, false, ◌||◌, not, List, [], ◌∷◌,
  Option, none, some, contains, list_eq, nat_eq, ◌==◌, leb, Result, ok, err, cancelled,
  if◌then◌else◌, value_error,
}
use simmis.Controller.Calls.{
  close_client, spawn_client, terminate_client, Served, Answer, Call, Reply, Lease, State, World,
  call, change, request, monotonic_ms, time_ms, references, launched_units, stop_unit, abort_launch,
  begin, turn, finish,
}
use simmis.Program.{finally, M, ◌>>=◌, ◌>>◌, lift, done, raise, ensure, get, attempt, when}
use simmis.Controller.{checked_receipt}
use simmis.ExecutionUnit.Observer.{text_of}
use simmis.Journal.Validate.{is_true}
use simmis.Inputs.{lease_ttl_ms}
use simmis.Value.{Text, text, Value, int, dict, index, is_str}

-- NETWORK_SECONDS
abbrev pub network_ms : ℕ
network_ms = 5000

abbrev pub tools : List Text
tools =
    text "simmis_worker-pending"
    ∷ text "simmis_worker-claim"
    ∷ text "simmis_worker-input"
    ∷ text "simmis_worker-heartbeat"
    ∷ text "simmis_worker-complete"
    ∷ text "simmis_worker-stop"
    ∷ []

-- `if test: raise Cancelled`
unfoldable pub cancel_if : Bool → Result (Unit {0})
cancel_if t = if t then err cancelled else ok tt

-- `if self.frames is None: raise OSError`
unfoldable pub is_open : Bool → Result (Unit {0})
is_open connected = if connected then ok tt else err os_error

-- What `Lease.status` makes of a receipt that was asked for at `started` and read at `now`, when the
-- wall clock says `wall`.
unfoldable pub freshened : ℕ → ℕ → ℕ → ℕ → ℕ → Lease
freshened interval started now wall expires =
    let valid_until = min (started + lease_ttl_ms - 1000) (now + (expires - (wall + 1000))) in
    record {
      next = if valid_until == 500 then none else some (min (now + interval) (valid_until - 500));
      valid_until = valid_until;
    }

-- `time.monotonic() >= self.next`
unfoldable pub is_due : Lease → ℕ → Bool
is_due lease now = elim lease.next [ none ↦ true | some n ↦ leb n now ]

-- int(value[key]) of a receipt that was checked, and of a frozen input
unfoldable pub nat_of : Value → Text → Result ℕ
unfolding index
nat_of v k = elim (index v k) [ ok (int (pos n)) ↦ ok n | ok w ↦ err value_error | err e ↦ err e ]

module _ {W : Type 0} (world : World W) where
  unfoldable pub require_live : Value → M (State W) (Unit {0})
  unfolding index is_str is_true cancel_if nat_of list_beq
  require_live receipt = do
    state ← lift (index receipt (text "state"))
    cancel ← lift (index receipt (text "cancel-requested?"))
    ack ← lift (index receipt (text "stop-ack?"))
    lift
        (cancel_if (not (is_str (λ t. t == text "claimed") state) || is_true cancel || is_true ack))
    expires ← lift (nat_of receipt (text "expires-at-ms"))
    wall ← call world time_ms
    lift (cancel_if (leb expires (wall + 1000)))

  -- `elif self.launch and self.launch["unit"] in self.observer.launched`
  unfoldable pub abort_launched : Option Value → M (State W) (Unit {0})
  unfolding text_of index contains
  abort_launched none = done tt
  abort_launched (some launch) = do
    name ← lift (text_of launch (text "unit"))
    names ← call world launched_units
    unit ← lift (index launch (text "unit"))
    when (contains names name) (call world (abort_launch unit))

  unfoldable pub stop_if : Bool → Value → Option Value → M (State W) (Unit {0})
  unfolding abort_launched
  stop_if true identity launch = call world (stop_unit identity)
  stop_if false identity launch = abort_launched launch

  unfoldable pub stop_or_abort : Option Value → Option Value → M (State W) (Unit {0})
  unfolding abort_launched stop_if text_of contains
  stop_or_abort none launch = abort_launched launch
  stop_or_abort (some identity) launch = do
    name ← lift (text_of identity (text "unit"))
    names ← call world references
    stop_if (contains names name) identity launch

  -- `_request_stop`
  unfoldable pub request_stop : M (State W) (Unit {0})
  unfolding stop_or_abort
  request_stop = do c ← get (λ s. s.control); when c.observer (stop_or_abort c.identity c.launch)

  -- `MCP._terminate`
  unfoldable pub terminate : M (State W) (Unit {0})
  terminate = do call world terminate_client; change (λ c. record c { connected = false })

  unfoldable pub on_reply : {A : Type 0} → M (State W) (Unit {0}) → Result A → M (State W) A
  unfolding terminate
  on_reply on_failure (ok v) = done v
  on_reply on_failure (err e) = do finally on_failure terminate; raise e

  -- `MCP._request`
  unfoldable pub exchange : M (State W) (Unit {0}) → (c : Call) → M (State W) (Reply c)
  unfolding is_open on_reply
  exchange on_failure c = do
    control ← get (λ s. s.control)
    lift (is_open control.connected)
    r ← attempt (call world c)
    on_reply on_failure r

  -- `MCP.call` of the lease's client, whose `on_failure` is `_request_stop`
  unfoldable pub client_call : Text → Value → M (State W) Value
  unfolding contains exchange request_stop
  client_call tool arguments = do
    ensure (contains tools tool)
    exchange request_stop (request tool arguments)

  -- `MCP.__enter__`
  unfoldable pub enter : M (State W) (Unit {0}) → Call → M (State W) (Unit {0})
  unfolding exchange
  enter on_failure opening = do
    call world spawn_client
    change (λ c. record c { connected = true })
    _ ← exchange on_failure opening
    done tt

  unfoldable pub leave_if : Bool → M (State W) (Unit {0}) → M (State W) (Unit {0})
  unfolding exchange
  leave_if true on_failure = do _ ← attempt (exchange on_failure close_client); done tt
  leave_if false on_failure = done tt

  -- `MCP.__exit__`, which lets no exception of the last request through
  unfoldable pub leave : M (State W) (Unit {0}) → M (State W) (Unit {0})
  unfolding leave_if terminate
  leave on_failure = do
    control ← get (λ s. s.control)
    leave_if control.connected on_failure
    terminate

  module _ (interval : ℕ) (ticket : Value) where
    -- `Lease.status`
    unfoldable pub status : M (State W) Value
    unfolding client_call checked_receipt cancel_if nat_of freshened index
    status = do
      started ← call world monotonic_ms
      run ← lift (index ticket (text "run"))
      reply ← client_call (text "simmis_worker-heartbeat") (dict ((text "run", run) ∷ []))
      value ← lift (checked_receipt reply ticket)
      now ← call world monotonic_ms
      lift (cancel_if (leb network_ms (now - started)))
      expires ← lift (nat_of value (text "expires-at-ms"))
      wall ← call world time_ms
      change (λ c. record c { lease = freshened interval started now wall expires })
      done value

    unfoldable pub renew : M (State W) (Unit {0})
    unfolding status require_live
    renew = do value ← status; require_live value

    unfoldable pub renew_if_due : Bool → Lease → M (State W) (Unit {0})
    unfolding renew is_due
    renew_if_due true lease = renew
    renew_if_due false lease = do now ← call world monotonic_ms; when (is_due lease now) renew

    -- `if self.next and time.monotonic() >= self.valid_until: raise Cancelled`
    unfoldable pub check_fresh : Option ℕ → ℕ → M (State W) (Unit {0})
    unfolding cancel_if
    check_fresh none valid_until = done tt
    check_fresh (some next) valid_until = do
      now ← call world monotonic_ms
      lift (cancel_if (leb valid_until now))

    -- `Lease.tick(force=...)`
    unfoldable pub tick : Bool → M (State W) (Unit {0})
    unfolding check_fresh renew_if_due
    tick force = do
      c ← get (λ s. s.control)
      check_fresh c.lease.next c.lease.valid_until
      renew_if_due force c.lease

    -- `Lease.input_call`
    unfoldable pub input_call : Text → Value → M (State W) Value
    unfolding tick client_call
    input_call tool arguments = do tick false; client_call tool arguments

    -- The rounds of an operation, each of which ticks first.
    unfoldable pub rounds : ℕ → Served → M (State W) (Unit {0})
    unfolding tick
    rounds zero served = done tt
    rounds (suc n) served = do tick false; call world (turn served); rounds n served

    unfoldable pub serviced : (served : Served) → M (State W) (Answer served)
    unfolding rounds
    serviced served = do n ← call world (begin served); rounds n served; call world (finish served)
