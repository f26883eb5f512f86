-- ===== src/Tests/Whole.antt =====
-- Instances for `run` and `reconcile` of worker_controller.py.
use simmis.Prelude.{◌≡◌, refl, list_eq, nat_eq, list_beq, false, [], none, ok, err, os_error}
use simmis.Controller.Settled.{reconcile-IsOrdered}
use simmis.Controller.Calls.{World, Call, State}
use simmis.Controller.Steps.{Settings}
use simmis.Controller.Run.{run}
use simmis.Controller.Runs.{IsRequesting}
use simmis.Controller.Whole.{run-IsOrdered}
use simmis.Controller.Ordered.{IsOrdered}
use simmis.Controller.Reconcile.{reconcile}
use simmis.Controller.Resumed.{executes, reconcile-executes}
use simmis.Tests.Controller.{ticket}
use simmis.Tests.Sample.{host, config, string, input_id}
use simmis.Value.{text}

-- A host that can claim a Run, and no more.
local : World (Unit {0})
local Call.lock w = (ok tt, w)
local Call.unlock w = (ok tt, w)
local Call.unresolved w = (ok false, w)
local (Call.run_exists run) w = (ok false, w)
local (Call.start_observer sci) w = (ok tt, w)
local (Call.child_directory run) w = (ok tt, w)
local (Call.claim_prepare run) w = (ok ticket, w)
local (Call.claim_load run) w = (ok ticket, w)
local (Call.encode_request frozen argv sci) w = (ok [], w)
local _ w = (err os_error, w)

local-IsRequesting : IsRequesting local
unfolding local list_beq
local-IsRequesting = record { request = λ frozen argv sci w. refl }

abbrev settings : Settings
settings = record {
  worker = text input_id;
  endpoint = text "https://example.org";
  config = config;
  interval = 5000;
}

abbrev idle : State (Unit {0})
idle = record {
  control = record {
    observer = false;
    frames = false;
    identity = none;
    launch = none;
    publication_attempted = false;
    used = false;
    lease = record { next = none; valid_until = 0 };
    connected = false;
  };
  world = tt;
  log = [];
}

run-IsOrdered_example :
    IsOrdered (text input_id) (run host local settings (string input_id) none none idle).1.log
unfolding IsOrdered
run-IsOrdered_example =
    run-IsOrdered host local local-IsRequesting settings none none (text input_id) idle tt

reconcile-executes_example :
    executes (reconcile host local settings (string input_id) idle).1.log ≡ false
unfolding executes
reconcile-executes_example = reconcile-executes host local settings (string input_id) idle refl

reconcile-IsOrdered_example :
    IsOrdered (text input_id) (reconcile host local settings (string input_id) idle).1.log
unfolding IsOrdered
reconcile-IsOrdered_example = reconcile-IsOrdered host local settings (text input_id) idle tt
