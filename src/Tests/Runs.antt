-- ===== src/Tests/Runs.antt =====
-- The four records of one Run, in a directory that holds them.
use simmis.Prelude.{
  String, true, false, List, [], ◌∷◌, ◌++◌, Option, none, some, Result, ok, list_eq, nat_eq, ◌==◌,
  if◌then◌else◌,
}
use simmis.Files.{File, Directory}
use simmis.Host.{Host, Url}
use simmis.Value.{Text, Bytes, text, Value, str, null, bool, Dict, dict, index}
use simmis.Value.Decode.{Raw}
use simmis.Tests.Sample.{frozen, string, number, no_digest, input_id, raw_of}
use simmis.ExecutionUnit
use simmis.Namespace
use simmis.Tests.Sample

abbrev pub unit_name : Text
unit_name = text "simmis-worker-0123456789abcdef0123456789abcdef.service"

abbrev owner : Dict
owner =
    (text "worker", string input_id)
    ∷ (text "run", string input_id)
    ∷ (text "nonce", string input_id)
    ∷ []

abbrev pub launch_record : Value
launch_record = dict (
    (text "version", number 1)
    ∷ (text "phase", string "launch")
    ∷ (text "previous", null)
    ∷ (text "owner", dict owner)
    ∷ (text "endpoint", string "https://h/mcp")
    ∷ (text "unit", str unit_name)
    ∷ (text "frozen", frozen)
    ∷ (text "namespace-policy", Namespace.policy)
    ∷ (text "unit-policy", ExecutionUnit.policy)
    ∷ [])

abbrev manager : Dict
manager =
    (text "uid", number 1000)
    ∷ (text "root", string "/user.slice/user-1000.slice/user@1000.service")
    ∷ (text "bus-id", string "0123456789abcdef0123456789abcdef")
    ∷ (text "owner", string ":1.2")
    ∷ []

abbrev pub identity : Value
identity = dict (
    (text "version", number 1)
    ∷ (text "unit", str unit_name)
    ∷ (text "boot-id", string input_id)
    ∷ (text "invocation-id", string "0123456789abcdef0123456789abcdef")
    ∷ (
      text "cgroup",
      str (text "/user.slice/user-1000.slice/user@1000.service/app.slice/" ++ unit_name),
    )
    ∷ (text "manager", dict manager)
    ∷ [])

abbrev pub admitted_record : Value
admitted_record = dict (
    (text "version", number 1)
    ∷ (text "phase", string "admitted")
    ∷ (text "previous", str no_digest)
    ∷ (text "identity", identity)
    ∷ [])

abbrev observation : Value
observation = dict (
    (text "version", number 1)
    ∷ (text "identity", identity)
    ∷ (text "state", string "inactive")
    ∷ (text "result", string "success")
    ∷ (text "observed-monotonic-ns", number 1)
    ∷ [])

abbrev pub delivered : Dict
delivered = (text "out/c", Sample.file "new") ∷ (text "src/a.txt", null) ∷ []

abbrev pub output : Value
output = dict (
    (text "files", dict delivered)
    ∷ (text "summary", string "done")
    ∷ (text "exit-code", number 0)
    ∷ [])

abbrev pub stopped_record : Value
stopped_record = dict (
    (text "version", number 1)
    ∷ (text "phase", string "stopped")
    ∷ (text "previous", str no_digest)
    ∷ (text "observation", observation)
    ∷ (text "output", output)
    ∷ (text "output-sha256", str no_digest)
    ∷ [])

abbrev pub receipt : Value
receipt = dict (
    (text "run", string input_id)
    ∷ (text "lease", string input_id)
    ∷ (text "state", string "completed")
    ∷ (text "cancel-requested?", bool false)
    ∷ (text "stop-ack?", bool true)
    ∷ (text "expires-at-ms", number 1)
    ∷ (text "output-id", string input_id)
    ∷ [])

abbrev pub acknowledged_record : Value
acknowledged_record = dict (
    (text "version", number 1)
    ∷ (text "phase", string "acknowledged")
    ∷ (text "previous", str no_digest)
    ∷ (text "outcome", string "completed")
    ∷ (text "receipt", receipt)
    ∷ [])

abbrev url : Text → Url
url path = record {
  scheme = text "https";
  netloc = text "h";
  path = path;
  query = [];
  fragment = [];
  hostname = some (text "h");
  username = none;
  password = none;
}

abbrev record_of : List (Text × Value) → Bytes → Option Value
record_of [] b = none
record_of ((name, value) ∷ rest) b =
    let later = record_of rest b in if name == b then some value else later

abbrev records : List (Text × Value)
records =
    (text "launch", launch_record)
    ∷ (text "admitted", admitted_record)
    ∷ (text "stopped", stopped_record)
    ∷ (text "acknowledged", acknowledged_record)
    ∷ []

abbrev raw : Option Value → Option Raw
raw none = none
raw (some v) = some (raw_of v)

abbrev name_of : Result Value → Option Bytes
name_of (ok (str s)) = some s
name_of _ = some (text "value")

-- A record is encoded by the name of its phase.
abbrev pub run_host : Host
run_host = record Sample.host {
  loads = λ b. raw (record_of records b);
  loads_plain = record_of records;
  dumps = λ v. name_of (index v (text "phase"));
  urlsplit = λ t. some (url (if t == text "https://h/mcp" then text "/mcp" else []));
  urlunsplit = λ a b path d e. if path == [] then text "https://h" else text "https://h/mcp";
}

abbrev pub written : String → File
written phase = record { private_regular = true; contents = text phase }

abbrev pub at_launch : Directory
at_launch = (text "launch.json", written "launch") ∷ []

abbrev pub at_stop : Directory
at_stop =
    (text "stopped.json", written "stopped")
    ∷ (text "admitted.json", written "admitted")
    ∷ at_launch

abbrev pub finished : Directory
finished = (text "acknowledged.json", written "acknowledged") ∷ at_stop
