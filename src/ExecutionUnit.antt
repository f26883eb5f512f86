-- ===== src/ExecutionUnit.antt =====
-- scripts/worker_unit.py: the names and identities of execution units, and the policies that a
-- launch record pins.
pub mod Bus
pub mod Observer
use simmis.Prelude.{
  String, ◌^◌, ℕ, zero, suc, ◌+◌, ◌*◌, ◌/◌, ◌%◌, Bool, true, false, ◌&&◌, not, List, [], ◌∷◌, ◌++◌,
  leb, ltb, ◌==◌, all, any, contains, list_eq, nat_eq, list_beq, length, take, drop, pos, Result,
  ok, err, ◌>>=◌, ◌>>◌, require, value_error, if◌then◌else◌,
}
use simmis.Inputs.{is_hex, is_uuid}
use simmis.Paths.{split, slash}
use simmis.Value.{Text, text, Value, str, int, Dict, dict, closed, item, is_int, is_str, is_run}

-- POLICY and SCI_POLICY
abbrev number : ℕ → Value
number n = int (pos n)

abbrev string : String → Value
string s = str (text s)

abbrev pub deadline_slack_ms : ℕ
deadline_slack_ms = 30000

abbrev pub stop_timeout_ms : ℕ
stop_timeout_ms = 2000

abbrev common_policy : Dict
common_policy =
    (text "swap-bytes", number 0)
    ∷ (text "cpu-quota-usec", number 1000000)
    ∷ (text "deadline-slack-ms", number deadline_slack_ms)
    ∷ (text "stop-timeout-ms", number stop_timeout_ms)
    ∷ (text "type", string "exec")
    ∷ (text "exit-type", string "cgroup")
    ∷ (text "restart", string "no")
    ∷ (text "kill-mode", string "control-group")
    ∷ (text "oom-policy", string "kill")
    ∷ []

abbrev pub policy : Value
policy = dict (
    (text "version", number 1)
    ∷ (text "memory-bytes", number (256 * 1024 * 1024))
    ∷ (text "max-tasks", number 64)
    ∷ common_policy)

abbrev pub sci_policy : Value
sci_policy = dict (
    (text "version", number 2)
    ∷ (text "profile", string "dvergr-sci")
    ∷ (text "memory-bytes", number (2560 * 1024 * 1024))
    ∷ (text "max-tasks", number 128)
    ∷ common_policy)

unfoldable pub starts_with : Text → Text → Bool
starts_with [] s = true
starts_with (c ∷ p) [] = false
starts_with (c ∷ p) (d ∷ s) = c == d && starts_with p s

-- re.fullmatch(r"simmis-worker-[0-9a-f]{32}\.service", name)
unfoldable pub is_unit_name : Text → Bool
unfolding is_run is_hex list_beq
is_unit_name name =
    take 14 name == text "simmis-worker-"
    && is_run is_hex 32 (take 32 (drop 14 name))
    && drop 46 name == text ".service"

unfoldable pub validate_name : Value → Result Text
unfolding is_unit_name
validate_name (str name) = do require (is_unit_name name); ok name
validate_name _ = err value_error

-- str(n), from the digits already printed
print_digits : ℕ → ℕ → Text → Text
print_digits zero n printed = printed
print_digits (suc fuel) n printed =
    let digit = (b'0' + n % 10) ∷ printed in
    let rest = print_digits fuel (n / 10) digit in if ltb n 10 then digit else rest

-- A user id is below 2 ** 32, so it has at most ten digits.
unfoldable pub print_uid : ℕ → Text
unfolding print_digits
print_uid n = print_digits 10 n []

unfoldable pub manager_root : ℕ → Text
unfolding print_uid
manager_root uid =
    text "/user.slice/user-"
    ++ print_uid uid
    ++ text ".slice/user@"
    ++ print_uid uid
    ++ text ".service"

is_digit : ℕ → Bool
is_digit c = leb b'0' c && leb c b'9'

is_digits : Text → Bool
unfolding all is_digit
is_digits s = leb 1 (length s) && all is_digit s

is_two_numbers : List Text → Bool
unfolding is_digits
is_two_numbers (a ∷ b ∷ []) = is_digits a && is_digits b
is_two_numbers _ = false

-- re.fullmatch(r":[0-9]+\.[0-9]+", owner)
unfoldable pub is_bus_name : Text → Bool
unfolding is_two_numbers split
is_bus_name [] = false
is_bus_name (c ∷ s) = c == b':' && is_two_numbers (split b'.' s)

-- str(PurePosixPath(path)) == path, of a path that starts with one slash
unfoldable pub is_pure_path : Text → Bool
unfolding split any contains list_beq
is_pure_path path = not (any (contains ([] ∷ text "." ∷ [])) (drop 1 (split slash path)))

last_part : List Text → Text
last_part [] = []
last_part (p ∷ []) = p
last_part (p ∷ q ∷ r) = last_part (q ∷ r)

-- A control group below /user.slice/, written canonically, that ends in the unit.
unfoldable pub is_unit_group : Text → Text → Bool
unfolding starts_with is_pure_path contains split last_part list_beq
is_unit_group unit group =
    starts_with (text "/user.slice/") group
    && is_pure_path group
    && not (contains (split slash group) (text ".."))
    && last_part (split slash group) == unit

unfoldable pub uid_of : Value → Result ℕ
uid_of (int (pos n)) = do require (ltb n (2 ^ 32)); ok n
uid_of _ = err value_error

unfoldable pub as_text : Value → Result Text
as_text (str s) = ok s
as_text _ = err value_error

abbrev pub identity_fields : List Text
identity_fields =
    text "version"
    ∷ text "unit"
    ∷ text "boot-id"
    ∷ text "invocation-id"
    ∷ text "cgroup"
    ∷ text "manager"
    ∷ []

abbrev pub manager_fields : List Text
manager_fields = text "uid" ∷ text "root" ∷ text "bus-id" ∷ text "owner" ∷ []

unfoldable pub check_manager : Text → Value → Result (Unit {0})
unfolding closed item uid_of is_str is_run is_bus_name manager_root starts_with
check_manager group manager = do
  m ← closed manager manager_fields
  u ← item (text "uid") m
  uid ← uid_of u
  bus_id ← item (text "bus-id") m
  require (is_str (is_run is_hex 32) bus_id)
  owner ← item (text "owner") m
  require (is_str is_bus_name owner)
  root ← item (text "root") m
  require (is_str (λ r. r == manager_root uid) root)
  require (starts_with (manager_root uid ++ slash ∷ []) group)

unfoldable pub validate_identity : Value → Result Value
unfolding closed item is_int validate_name as_text is_uuid is_run is_unit_group check_manager
validate_identity identity = do
  i ← closed identity identity_fields
  version ← item (text "version") i
  require (is_int 1 version)
  n ← item (text "unit") i
  unit ← validate_name n
  b ← item (text "boot-id") i
  boot_id ← as_text b
  v ← item (text "invocation-id") i
  invocation_id ← as_text v
  g ← item (text "cgroup") i
  group ← as_text g
  require (is_uuid boot_id)
  require (is_run is_hex 32 invocation_id && not (all (λ c. c == b'0') invocation_id))
  require (is_unit_group unit group)
  manager ← item (text "manager") i
  check_manager group manager
  ok identity
