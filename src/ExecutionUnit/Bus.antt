-- ===== src/ExecutionUnit/Bus.antt =====
-- What an observer of scripts/worker_unit.py calls and the model does not compute: the user's systemd
-- manager over D-Bus, the cgroup files, the clock.
use simmis.Prelude.{ℕ, Bool, List, Option, Error}
use simmis.Program.{M}
use simmis.Value.{Text}

-- The properties of a unit that are read: of org.freedesktop.systemd1.Unit,
pub record UnitProperties : Type 0 where
  pub id : Text
  -- bytes(unit["InvocationID"]).hex()
  pub invocation : Text
  pub active_state : Text
  -- int(unit["Job"][0])
  pub job : ℕ

-- and of its service.
pub record ServiceProperties : Type 0 where
  pub control_group : Text
  pub main_pid : ℕ
  pub kind : Text
  pub exit_type : Text
  pub restart : Text
  pub kill_mode : Text
  pub send_sigkill : Bool
  pub oom_policy : Text
  pub runtime_max_usec : ℕ
  pub timeout_stop_usec : ℕ
  pub outcome : Text

-- The three GetAll of `_properties`.
pub record Reading : Type 0 where
  pub before : UnitProperties
  pub service : ServiceProperties
  pub after : UnitProperties

-- What `verify_cgroup_view` reads: the mounts at /sys/fs/cgroup with their root and type, the paths of
-- the manager's `0::` lines, and the processes of a group.
pub record View : Type 0 where
  pub roots : List (Text × Text)
  pub paths : List Text
  pub members : List Text

-- The files of a control group that `capture` reads; a limit of `max` is none, a ValueError of int().
pub record Limits : Type 0 where
  pub memory_max : Option ℕ
  pub swap_max : Text
  pub pids_max : Option ℕ
  pub oom_group : Text
  pub cpu_max : Option (ℕ × ℕ)
  -- the lines of the main process's cgroup file
  pub process_groups : List Text

-- cgroup.events: its file, or whether the group exists without one.
pub data Events : Type 0 where
  absent : Events
  unknown : Events
  populated : Option Text → Events

-- A property of a transient unit.
pub data Property : Type 0 where
  word : Text → Property
  flag : Bool → Property
  number : ℕ → Property
  descriptor : ℕ → Property
  command : List Text → Property

-- What the event loop meets before the deadline.
pub data Wake : Type 0 where
  woken : Wake
  service_failed : Error → Wake

pub record Bus (W : Type 0) : Type 0 where
  -- not self.unknown, connected, and the owner is the one of the start
  pub is_known : M W Bool
  pub cgroup_view : M W View
  pub start_transient_unit : Text → List (Text × Property) → M W (Unit {0})
  pub ref_unit : Text → M W (Unit {0})
  pub unref_unit : Text → M W (Unit {0})
  pub stop_unit : Text → M W (Unit {0})
  pub get_all : Text → M W Reading
  pub boot_id : M W Text
  pub limits : Text → ℕ → M W Limits
  pub cgroup_events : Text → M W Events
  -- what happens before the deadline of so many seconds
  pub wakes : ℕ → M W (List Wake)
  pub monotonic_ns : M W ℕ
  pub close : M W (Unit {0})
