-- ===== src/Tests/Observer.antt =====
-- Runs and instances for `UnitBus` of worker_unit.py: a manager whose answers to a launch are lost.
use simmis.Prelude.{
  ◌≡◌, refl, false, true, List, [], ◌∷◌, none, ok, err, value_error, timeout_error, os_error,
  contains, list_eq, nat_eq,
}
use simmis.ExecutionUnit.{validate_name}
use simmis.ExecutionUnit.Bus.{Bus, View}
use simmis.ExecutionUnit.Observer.{Machine}
use simmis.ExecutionUnit.Observer.Methods.{launch, close}
use simmis.ExecutionUnit.Observer.Calls.{Call, run, run-IsConsistent, lost_launch-IsHeld}
use simmis.ExecutionUnit.Observer.Sets.{IsConsistent}
use simmis.ExecutionUnit.Observer.Held.{IsHeld}
use simmis.Tests.Runs.{unit_name}
use simmis.Tests.Sample.{host}
use simmis.Value.{text, Value}

abbrev view : View
view = record {
  roots = (text "/", text "cgroup2") ∷ [];
  paths = text "/user.slice/u" ∷ [];
  members = text "7" ∷ [];
}

abbrev lossy : Bus (Unit {0})
lossy = record {
  is_known = λ w. (ok true, w);
  cgroup_view = λ w. (ok view, w);
  start_transient_unit = λ name properties w. (err timeout_error, w);
  ref_unit = λ name w. (ok tt, w);
  unref_unit = λ name w. (ok tt, w);
  stop_unit = λ name w. (ok tt, w);
  get_all = λ name w. (err os_error, w);
  boot_id = λ w. (ok (text "b"), w);
  limits = λ group pid w. (err os_error, w);
  cgroup_events = λ group w. (err os_error, w);
  wakes = λ seconds w. (ok [], w);
  monotonic_ns = λ w. (ok 0, w);
  close = λ w. (ok tt, w);
}

abbrev fresh : Machine (Unit {0})
fresh = record {
  observer = record {
    sci = false;
    manager_pid = text "7";
    manager_root = text "/user.slice/u";
    manager_identity = Value.null;
    references = [];
    confirmed = [];
    launched = [];
  };
  world = tt;
}

abbrev lost : Machine (Unit {0})
lost =
    (launch host lossy (Value.str unit_name) (0, 1, 2) 1000 (text "/usr/bin/bwrap" ∷ []) none
      fresh).1

abbrev calls : List (Call (Unit {0}))
calls =
    Call.closing
    ∷ Call.capturing (Value.str unit_name)
    ∷ Call.launching (Value.str unit_name) (0, 1, 2) 1000 [] none
    ∷ []

fresh-IsConsistent : IsConsistent fresh.observer
unfolding contains
fresh-IsConsistent = record { confirmed = λ n h. h; launched = λ n h. h }

launch-lost :
    (launch host lossy
      (Value.str unit_name)
      (0, 1, 2)
      1000
      (text "/usr/bin/bwrap" ∷ [])
      none
      fresh).0
    ≡ err timeout_error
unfolding launch
launch-lost = refl

launch-there : contains lost.observer.references unit_name ≡ true
unfolding launch contains
launch-there = refl

named : validate_name (Value.str unit_name) ≡ ok unit_name
unfolding validate_name
named = refl

run-IsConsistent_example : IsConsistent (run host lossy calls fresh).observer
run-IsConsistent_example = run-IsConsistent host lossy calls fresh fresh-IsConsistent

lost_launch-IsHeld_example :
    IsHeld unit_name (run host lossy calls lost).observer
    × (close host lossy (run host lossy calls lost) ≡ (err value_error, run host lossy calls lost))
unfolding contains
lost_launch-IsHeld_example =
    lost_launch-IsHeld host lossy fresh (Value.str unit_name) unit_name (0, 1, 2) 1000
      (text "/usr/bin/bwrap" ∷ []) none calls named fresh-IsConsistent refl launch-lost launch-there
