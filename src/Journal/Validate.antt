-- ===== src/Journal/Validate.antt =====
-- `_owner`, `_validate_launch`, `_validate_admitted`, `_validate_stopped`, `_validate_acknowledged`.
pub mod Outcome
use simmis.Prelude.{
  ◌^◌, ◌-◌, Bool, true, false, ◌&&◌, ◌||◌, not, List, [], ◌∷◌, none, some, leb, ltb, ◌==◌, all,
  contains, list_eq, nat_eq, list_beq, length, pos, Result, ok, err, ◌>>=◌, ◌>>◌, require,
  value_error, if◌then◌else◌,
}
use simmis.Endpoint.{mcp_endpoint}
use simmis.ExecutionUnit.{validate_name, validate_identity}
use simmis.Host.{Host}
use simmis.Inputs.{canonical_uuid}
use simmis.Journal.Records.{
  launch, admitted, stopped, acknowledged, encode, digest, common, is_link,
}
use simmis.Runtime.{validate_profile}
use simmis.Value.{
  Text, text, Value, str, int, null, bool, Dict, closed, item, index, is_int, is_int_in, is_str,
  in_set,
}
use simmis.ExecutionUnit
use simmis.Inputs
use simmis.Namespace
use simmis.Outputs

-- [a-z][a-z0-9-]{0,79}
unfoldable pub is_result_name : Text → Bool
unfolding all
is_result_name [] = false
is_result_name (c ∷ s) =
    leb b'a' c
    && leb c b'z'
    && leb (length s) 79
    && all (λ d. leb b'a' d && leb d b'z' || leb b'0' d && leb d b'9' || d == b'-') s

unfoldable pub is_true : Value → Bool
is_true (bool b) = b
is_true _ = false

unfoldable pub is_bool : Value → Bool
is_bool (bool b) = true
is_bool _ = false

-- type(value) is int and value > 0
unfoldable pub is_positive : Value → Bool
is_positive (int (pos n)) = ltb 0 n
is_positive _ = false

-- The state of a version, 2 for a packaged runtime.
unfoldable pub is_sci : Value → Bool
unfolding index is_int
is_sci value = elim (index value (text "version")) [ ok v ↦ is_int 2 v | err e ↦ false ]

abbrev pub owner_fields : List Text
owner_fields = text "worker" ∷ text "run" ∷ text "nonce" ∷ []

abbrev pub observation_fields : List Text
observation_fields =
    text "version"
    ∷ text "identity"
    ∷ text "state"
    ∷ text "result"
    ∷ text "observed-monotonic-ns"
    ∷ []

abbrev pub completion_fields : List Text
completion_fields =
    text "run"
    ∷ text "lease"
    ∷ text "state"
    ∷ text "cancel-requested?"
    ∷ text "stop-ack?"
    ∷ text "expires-at-ms"
    ∷ text "output-id"
    ∷ []

-- a == b of two texts, one of them known to be a str
unfoldable pub same_text : Value → Value → Bool
same_text (str s) (str t) = s == t
same_text _ _ = false

-- value["identity"]["unit"] == launch["unit"], both of them unit names
unfoldable pub check_unit : Value → Value → Result (Unit {0})
unfolding index validate_name
check_unit identity launched = do
  u ← index identity (text "unit")
  a ← validate_name u
  v ← index launched (text "unit")
  b ← validate_name v
  require (a == b)

unfoldable pub check_owner : Value → Result (Unit {0})
unfolding closed item canonical_uuid
check_owner owner = do
  o ← closed owner owner_fields
  worker ← item (text "worker") o
  _ ← canonical_uuid worker
  run ← item (text "run") o
  _ ← canonical_uuid run
  nonce ← item (text "nonce") o
  _ ← canonical_uuid nonce
  ok tt

module _ (host : Host) where
  -- encode(a) == encode(b)
  unfoldable pub same_encoding : Value → Value → Result Bool
  unfolding encode
  same_encoding a b = do x ← encode host a; y ← encode host b; ok (x == y)

  -- The policies that a launch record pins, of a packaged runtime or of the namespace guard.
  unfoldable pub check_policies : Bool → Dict → Result (Unit {0})
  unfolding item same_encoding validate_profile
  check_policies true d = do
    p ← item (text "execution-profile") d
    _ ← validate_profile host p
    u ← item (text "unit-policy") d
    same ← same_encoding u ExecutionUnit.sci_policy
    require same
  check_policies false d = do
    p ← item (text "namespace-policy") d
    same ← same_encoding p Namespace.policy
    require same
    u ← item (text "unit-policy") d
    also ← same_encoding u ExecutionUnit.policy
    require also

  unfoldable pub validate_launch : Value → Result (Unit {0})
  unfolding is_sci common item index check_owner mcp_endpoint validate_name Inputs.validate
      check_policies
  validate_launch value = do
    let sci = is_sci value
    d ←
        common host value launch none
          (text "owner"
            ∷ text "endpoint"
            ∷ text "unit"
            ∷ text "frozen"
            ∷ (if sci then text "execution-profile" else text "namespace-policy")
            ∷ text "unit-policy"
            ∷ [])
          (if sci then 2 else 1)
    owner ← item (text "owner") d
    check_owner owner
    endpoint ← item (text "endpoint") d
    _ ← mcp_endpoint host endpoint
    unit ← item (text "unit") d
    _ ← validate_name unit
    frozen ← item (text "frozen") d
    config ← index frozen (text "config")
    _ ← Inputs.validate host frozen config
    check_policies sci d

  unfoldable pub validate_admitted : Value → Value → Result (Unit {0})
  unfolding common item validate_identity check_unit
  validate_admitted value launched = do
    d ← common host value admitted (some launched) (text "identity" ∷ []) 1
    identity ← item (text "identity") d
    _ ← validate_identity identity
    check_unit identity launched

  unfoldable pub check_observation : Value → Value → Result Value
  unfolding in_set closed item index is_int is_str contains list_beq same_encoding is_result_name
      is_positive
  check_observation observation admission = do
    o ← closed observation observation_fields
    version ← item (text "version") o
    require (is_int 1 version)
    seen ← item (text "identity") o
    identity ← index admission (text "identity")
    same ← same_encoding seen identity
    require same
    state ← item (text "state") o
    among ← in_set (text "inactive" ∷ text "failed" ∷ []) state
    require among
    result ← item (text "result") o
    require (is_str is_result_name result)
    at ← item (text "observed-monotonic-ns") o
    require (is_positive at)
    ok result

  -- The output that a stopped phase seals, if any, and its digest.
  unfoldable pub check_output : Value → Value → Value → Result Value
  unfolding index Outputs.validate is_int is_str digest
  check_output null launched result = ok null
  check_output output launched result = do
    frozen ← index launched (text "frozen")
    config ← index frozen (text "config")
    _ ← Outputs.validate host frozen config output
    exit_code ← index output (text "exit-code")
    require (not (is_int 0 exit_code) || is_str (λ s. s == text "success") result)
    s ← digest host output
    ok (str s)

  unfoldable pub validate_stopped : Value → Value → Value → Result (Unit {0})
  unfolding common item check_observation check_output is_link
  validate_stopped value launched admission = do
    d ←
        common host value stopped (some admission)
          (text "observation" ∷ text "output" ∷ text "output-sha256" ∷ []) 1
    observation ← item (text "observation") d
    result ← check_observation observation admission
    output ← item (text "output") d
    expected ← check_output output launched result
    given ← item (text "output-sha256") d
    require (is_link given expected)

  unfoldable pub check_completion : Value → Value → Value → Result (Unit {0})
  unfolding closed item index same_text is_str is_bool is_int_in canonical_uuid
  check_completion receipt launched sealed = do
    r ← closed receipt completion_fields
    output ← index sealed (text "output")
    require (Outputs.is_file output)
    owner ← index launched (text "owner")
    nonce ← index owner (text "nonce")
    lease ← item (text "lease") r
    require (same_text lease nonce)
    state ← item (text "state") r
    require (is_str (λ s. s == text "completed") state)
    cancel ← item (text "cancel-requested?") r
    require (is_bool cancel)
    expires ← item (text "expires-at-ms") r
    require (is_int_in 0 (2 ^ 63 - 1) expires)
    u ← item (text "output-id") r
    _ ← canonical_uuid u
    ok tt

  unfoldable pub check_outcome : Text → Value → Value → Value → Result (Unit {0})
  unfolding closed check_completion list_beq
  check_outcome outcome receipt launched sealed =
      if outcome == text "stopped"
      then (closed receipt (text "run" ∷ text "stop-ack?" ∷ []) >>= λ _. ok tt)
      else if outcome == text "completed"
      then check_completion receipt launched sealed
      else err value_error

  unfoldable pub validate_acknowledged : Value → Value → Value → Result (Unit {0})
  unfolding common item index check_outcome same_text is_true ExecutionUnit.as_text
  validate_acknowledged value launched sealed = do
    d ← common host value acknowledged (some sealed) (text "outcome" ∷ text "receipt" ∷ []) 1
    receipt ← item (text "receipt") d
    o ← item (text "outcome") d
    outcome ← ExecutionUnit.as_text o
    check_outcome outcome receipt launched sealed
    run ← index receipt (text "run")
    owner ← index launched (text "owner")
    owned ← index owner (text "run")
    require (same_text run owned)
    ack ← index receipt (text "stop-ack?")
    require (is_true ack)
