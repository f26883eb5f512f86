-- ===== src/ExecutionUnit/Observer/Methods.antt =====
-- The methods of `UnitBus`.
use simmis.Prelude.{
  ◌++◌, ℕ, Bool, true, false, ◌&&◌, ◌||◌, not, List, [], ◌∷◌, Option, none, some, leb, ltb, ◌==◌,
  list_eq, nat_eq, contains, Result, ok, err, value_error, timeout_error,
}
use simmis.Program.{M, ◌>>=◌, ◌>>◌, lift, done, raise, ensure, get}
use simmis.ExecutionUnit.{validate_name, validate_identity}
use simmis.ExecutionUnit.Bus.{Bus, UnitProperties, ServiceProperties, Wake, woken, service_failed}
use simmis.ExecutionUnit.Observer.{
  Machine, verify_cgroup_view, cgroup_empty, text_of, transient_properties, remove,
  is_stopped_state, is_ready, has_shutdown_policy, is_bounded, identity_of, observation_of, ask,
  change,
}
use simmis.Host.{Host}
use simmis.Outputs.{discard, add}
use simmis.Value.{Text, text, Value, index}
use simmis.Value.Equality.{value_eq}

module _ (host : Host) {W : Type 0} (bus : Bus W) where
  -- `_check`
  unfoldable pub check : M (Machine W) (Unit {0})
  unfolding verify_cgroup_view
  check = do
    known ← ask bus.is_known
    ensure known
    view ← ask bus.cgroup_view
    o ← get (λ s. s.observer)
    lift (verify_cgroup_view o.manager_pid o.manager_root view)

  -- The command of a launch: the guard's, or the packaged supervisor's where the observer has its policy.
  unfoldable pub command_for : Bool → List Text → Option (Result (List Text)) → Result (List Text)
  command_for true guard none = err value_error
  command_for false guard none = ok guard
  command_for true guard (some supervisor) = supervisor
  command_for false guard (some supervisor) = err value_error

  -- `guard` is the namespace's command, and `supervisor` what `supervisor_argv` returns or raises.
  unfoldable pub launch :
      Value → ℕ × ℕ × ℕ → ℕ → List Text → Option (Result (List Text)) → M (Machine W) (Unit {0})
  unfolding validate_name contains check command_for transient_properties add
  launch n (stdin, stdout, stderr) timeout_ms guard supervisor = do
    name ← lift (validate_name n)
    o ← get (λ s. s.observer)
    ensure (not (contains o.references name))
    ensure (leb 1000 timeout_ms && leb timeout_ms 600000)
    check
    argv ← lift (command_for o.sci guard supervisor)
    change (λ o. record o { references = add name o.references })
    ask (
        bus.start_transient_unit name
          (transient_properties o.sci stdin stdout stderr timeout_ms argv))
    change (λ o. record o { confirmed = add name o.confirmed; launched = add name o.launched })

  -- `_properties`
  unfoldable pub properties : Text → M (Machine W) (UnitProperties × ServiceProperties)
  unfolding check contains
  properties name = do
    check
    o ← get (λ s. s.observer)
    ensure (contains o.confirmed name)
    r ← ask (bus.get_all name)
    check
    ensure (r.before.id == name && r.after.id == name && r.before.invocation == r.after.invocation)
    done (r.after, r.service)

  -- The end of `_snapshot`: the properties are those of the identity's invocation and group.
  unfoldable pub same_invocation :
      Value
      → UnitProperties × ServiceProperties
      → M (Machine W) (UnitProperties × ServiceProperties)
  unfolding text_of
  same_invocation identity p = do
    invocation ← lift (text_of identity (text "invocation-id"))
    ensure (p.0.invocation == invocation)
    group ← lift (text_of identity (text "cgroup"))
    ensure (p.1.control_group == [] || p.1.control_group == group)
    done p

  -- `_snapshot`
  unfoldable pub snapshot : Value → M (Machine W) (UnitProperties × ServiceProperties)
  unfolding validate_identity text_of index value_eq properties same_invocation
  snapshot identity = do
    _ ← lift (validate_identity identity)
    boot ← ask bus.boot_id
    boot_id ← lift (text_of identity (text "boot-id"))
    ensure (boot == boot_id)
    manager ← lift (index identity (text "manager"))
    o ← get (λ s. s.observer)
    ensure (value_eq host.floats manager o.manager_identity)
    name ← lift (text_of identity (text "unit"))
    p ← properties name
    same_invocation identity p

  -- `if unit not in self.references: ...` of `retain`
  unfoldable pub attach : Bool → Text → M (Machine W) (Unit {0})
  unfolding add
  attach true name = done tt
  attach false name = do
    change (λ o. record o { references = add name o.references })
    ask (bus.ref_unit name)
    change (λ o. record o { confirmed = add name o.confirmed })

  unfoldable pub retain : Value → M (Machine W) (Unit {0})
  unfolding validate_identity check text_of contains attach snapshot
  retain identity = do
    _ ← lift (validate_identity identity)
    check
    name ← lift (text_of identity (text "unit"))
    o ← get (λ s. s.observer)
    ensure (not (contains o.references name && not (contains o.confirmed name)))
    attach (contains o.references name) name
    _ ← snapshot identity
    done tt

  unfoldable pub capture : Value → M (Machine W) Value
  unfolding validate_name contains properties validate_identity is_ready has_shutdown_policy
      is_bounded snapshot text_of
  capture n = do
    name ← lift (validate_name n)
    o ← get (λ s. s.observer)
    ensure (contains o.launched name)
    p ← properties name
    boot ← ask bus.boot_id
    identity ← lift (
        validate_identity
          (identity_of name boot p.0.invocation p.1.control_group o.manager_identity))
    ensure (is_ready p.0 p.1)
    ensure (has_shutdown_policy p.1)
    limits ← ask (bus.limits p.1.control_group p.1.main_pid)
    ensure (is_bounded o.sci limits)
    ensure (contains limits.process_groups (text "0::" ++ p.1.control_group))
    _ ← snapshot identity
    done identity

  unfoldable pub stop : Value → M (Machine W) (Unit {0})
  unfolding snapshot text_of
  stop identity = do
    _ ← snapshot identity
    name ← lift (text_of identity (text "unit"))
    ask (bus.stop_unit name)

  unfoldable pub abort_launch : Value → M (Machine W) (Unit {0})
  unfolding validate_name contains properties
  abort_launch n = do
    name ← lift (validate_name n)
    o ← get (λ s. s.observer)
    ensure (contains o.launched name)
    _ ← properties name
    ask (bus.stop_unit name)

  -- The second snapshot of a unit whose group is empty.
  unfoldable pub conclude : Value → ServiceProperties → M (Machine W) (Option Value)
  unfolding snapshot is_stopped_state
  conclude identity service = do
    final ← snapshot identity
    ensure (is_stopped_state final.0.active_state && final.0.job == 0)
    at ← ask bus.monotonic_ns
    done (some (observation_of identity final.0.active_state service.outcome at))

  unfoldable pub conclude_if : Bool → Value → ServiceProperties → M (Machine W) (Option Value)
  unfolding conclude
  conclude_if true identity service = conclude identity service
  conclude_if false identity service = done none

  unfoldable pub check_empty : Bool → Value → ServiceProperties → M (Machine W) (Option Value)
  unfolding text_of cgroup_empty conclude_if
  check_empty false identity service = done none
  check_empty true identity service = do
    group ← lift (text_of identity (text "cgroup"))
    events ← ask (bus.cgroup_events group)
    empty ← lift (cgroup_empty events)
    conclude_if empty identity service

  -- One round of `wait_stopped`: the observation, if the unit has stopped.
  unfoldable pub observe : Value → M (Machine W) (Option Value)
  unfolding snapshot is_stopped_state check_empty
  observe identity = do
    p ← snapshot identity
    check_empty (is_stopped_state p.0.active_state && p.0.job == 0 && p.1.main_pid == 0) identity
        p.1

  unfoldable pub next_round : Option Value → Wake → M (Machine W) Value → M (Machine W) Value
  next_round (some v) w rest = done v
  next_round none (service_failed e) rest = raise e
  next_round none woken rest = rest

  unfoldable pub last_round : Option Value → M (Machine W) Value
  last_round none = raise timeout_error
  last_round (some v) = done v

  -- The wakes before the deadline, of which the last is its expiry.
  unfoldable pub wait_loop : Value → List Wake → M (Machine W) Value
  unfolding observe next_round last_round
  wait_loop identity [] = observe identity >>= last_round
  wait_loop identity (w ∷ ws) =
      let rest = wait_loop identity ws in observe identity >>= λ o. next_round o w rest

  unfoldable pub first_tick : Option (M (Machine W) (Unit {0})) → M (Machine W) (Unit {0})
  first_tick none = done tt
  first_tick (some tick) = tick

  unfoldable pub wait_stopped : ℕ → Option (M (Machine W) (Unit {0})) → Value → M (Machine W) Value
  unfolding first_tick wait_loop
  wait_stopped seconds on_tick identity = do
    ensure (ltb 0 seconds && leb seconds 660)
    first_tick on_tick
    ws ← ask (bus.wakes seconds)
    wait_loop identity ws

  unfoldable pub release : Value → M (Machine W) (Unit {0})
  unfolding wait_stopped text_of remove discard
  release identity = do
    _ ← wait_stopped 1 none identity
    name ← lift (text_of identity (text "unit"))
    ask (bus.unref_unit name)
    o ← get (λ s. s.observer)
    references ← lift (remove name o.references)
    change (λ o. record o { references = references })
    confirmed ← lift (remove name o.confirmed)
    change (λ o. record o { confirmed = confirmed; launched = discard name o.launched })

  unfoldable pub close : M (Machine W) (Unit {0})
  close = do o ← get (λ s. s.observer); ensure (o.references == []); ask bus.close
