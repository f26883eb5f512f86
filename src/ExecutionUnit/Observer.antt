-- ===== src/ExecutionUnit/Observer.antt =====
-- `UnitBus` of scripts/worker_unit.py: an observer that retains units until their shutdown is sealed.
pub mod Methods
pub mod Stable
pub mod Kept
pub mod Exposed
pub mod Changed
pub mod Sets
pub mod Held
pub mod Calls
use simmis.Prelude.{
  ℕ, ◌+◌, ◌*◌, Bool, true, false, ◌&&◌, ◌||◌, not, List, [], ◌∷◌, ◌++◌, Option, none, some, leb,
  ltb, ◌==◌, list_eq, nat_eq, list_beq, contains, Result, ok, err, value_error, key_error, require,
  if◌then◌else◌, pos,
}
use simmis.Program.{M, modify}
use simmis.ExecutionUnit.{starts_with, is_pure_path, as_text, deadline_slack_ms, stop_timeout_ms}
use simmis.ExecutionUnit.Bus.{
  Bus, UnitProperties, ServiceProperties, View, Limits, Events, absent, unknown, populated,
  Property, word, flag, number, descriptor, command,
}
use simmis.Host.{Host}
use simmis.Outputs.{discard}
use simmis.Paths.{split, slash}
use simmis.Value.{Text, text, Value, str, int, dict, index}

pub record Observer : Type 0 where
  -- the policy is SCI_POLICY
  pub sci : Bool
  pub manager_pid : Text
  pub manager_root : Text
  pub manager_identity : Value
  pub references : List Text
  pub confirmed : List Text
  pub launched : List Text

pub record Machine (W : Type 0) : Type 0 where
  pub observer : Observer
  pub world : W

is_hierarchy : List (Text × Text) → Bool
is_hierarchy ((root, kind) ∷ []) = root == text "/" && kind == text "cgroup2"
is_hierarchy _ = false

is_below : Text → List Text → Bool
is_below root (path ∷ []) = path == root || starts_with (root ++ slash ∷ []) path
is_below root _ = false

unfoldable pub verify_cgroup_view : Text → Text → View → Result (Unit {0})
unfolding is_hierarchy is_below starts_with is_pure_path contains split list_beq
verify_cgroup_view pid root view = require (
    is_hierarchy view.roots
    && starts_with (text "/user.slice/") root
    && not (contains (split slash root) (text ".."))
    && is_pure_path root
    && is_below root view.paths
    && contains view.members pid)

-- `cgroup_empty`
unfoldable pub cgroup_empty : Events → Result Bool
cgroup_empty absent = ok true
cgroup_empty unknown = err value_error
cgroup_empty (populated none) = err value_error
cgroup_empty (populated (some value)) =
    if value == text "0" then ok true else if value == text "1" then ok false else err value_error

unfoldable pub text_of : Value → Text → Result Text
unfolding index as_text
text_of v k = elim (index v k) [ ok x ↦ as_text x | err e ↦ err e ]

abbrev pub memory_bytes : Bool → ℕ
memory_bytes sci = if sci then 2560 * 1024 * 1024 else 256 * 1024 * 1024

abbrev pub max_tasks : Bool → ℕ
max_tasks sci = if sci then 128 else 64

-- The properties of `StartTransientUnit`.
unfoldable pub transient_properties : Bool → ℕ → ℕ → ℕ → ℕ → List Text → List (Text × Property)
transient_properties sci stdin stdout stderr timeout_ms argv =
    (text "AddRef", flag true)
    ∷ (text "Type", word (text "exec"))
    ∷ (text "ExitType", word (text "cgroup"))
    ∷ (text "Restart", word (text "no"))
    ∷ (text "KillMode", word (text "control-group"))
    ∷ (text "SendSIGKILL", flag true)
    ∷ (text "OOMPolicy", word (text "kill"))
    ∷ (text "MemoryMax", number (memory_bytes sci))
    ∷ (text "MemorySwapMax", number 0)
    ∷ (text "TasksMax", number (max_tasks sci))
    ∷ (text "CPUQuotaPerSecUSec", number 1000000)
    ∷ (text "RuntimeMaxUSec", number ((timeout_ms + deadline_slack_ms) * 1000))
    ∷ (text "TimeoutStopUSec", number (stop_timeout_ms * 1000))
    ∷ (text "StandardInputFileDescriptor", descriptor stdin)
    ∷ (text "StandardOutputFileDescriptor", descriptor stdout)
    ∷ (text "StandardErrorFileDescriptor", descriptor stderr)
    ∷ (text "ExecStart", command argv)
    ∷ []

-- set.remove
unfoldable pub remove : Text → List Text → Result (List Text)
unfolding contains discard
remove name names = if contains names name then ok (discard name names) else err key_error

unfoldable pub is_stopped_state : Text → Bool
is_stopped_state state = state == text "inactive" || state == text "failed"

unfoldable pub is_ready : UnitProperties → ServiceProperties → Bool
is_ready u s = u.active_state == text "active" && u.job == 0 && ltb 0 s.main_pid

unfoldable pub has_shutdown_policy : ServiceProperties → Bool
has_shutdown_policy s =
    s.kind == text "exec"
    && s.exit_type == text "cgroup"
    && s.restart == text "no"
    && s.kill_mode == text "control-group"
    && s.send_sigkill
    && s.oom_policy == text "kill"
    && ltb 0 s.runtime_max_usec
    && leb s.runtime_max_usec 630000000
    && ltb 0 s.timeout_stop_usec
    && leb s.timeout_stop_usec 2000000

is_within : Option ℕ → ℕ → Bool
is_within none bound = false
is_within (some n) bound = ltb 0 n && leb n bound

is_quota : Option (ℕ × ℕ) → Bool
is_quota none = false
is_quota (some (quota, period)) = ltb 0 quota && leb quota period

unfoldable pub is_bounded : Bool → Limits → Bool
unfolding is_within is_quota
is_bounded sci l =
    is_within l.memory_max (memory_bytes sci)
    && l.swap_max == text "0"
    && is_within l.pids_max (max_tasks sci)
    && l.oom_group == text "1"
    && is_quota l.cpu_max

abbrev pub identity_of : Text → Text → Text → Text → Value → Value
identity_of name boot_id invocation group manager = dict (
    (text "version", int (pos 1))
    ∷ (text "unit", str name)
    ∷ (text "boot-id", str boot_id)
    ∷ (text "invocation-id", str invocation)
    ∷ (text "cgroup", str group)
    ∷ (text "manager", manager)
    ∷ [])

abbrev pub observation_of : Value → Text → Text → ℕ → Value
observation_of identity state outcome at = dict (
    (text "version", int (pos 1))
    ∷ (text "identity", identity)
    ∷ (text "state", str state)
    ∷ (text "result", str outcome)
    ∷ (text "observed-monotonic-ns", int (pos at))
    ∷ [])

module _ {W : Type 0} where
  abbrev pub step : {A : Type 0} → Result A × W → Machine W → Result A × Machine W
  step (r, w) s = (r, record s { world = w })

  -- A call of the manager or of the kernel.
  abbrev pub ask : {A : Type 0} → M W A → M (Machine W) A
  ask m s = step (m s.world) s

  abbrev pub change : (Observer → Observer) → M (Machine W) (Unit {0})
  change f = modify (λ s. record s { observer = f s.observer })
