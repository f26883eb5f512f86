-- ===== src/Journal/Records.antt =====
-- The records of the four phases and their validation: `encode`, `digest`, `_read`, `_common`,
-- `_validate_launch`, `_validate_admitted`, `_validate_stopped` and `_validate_acknowledged`.
pub mod Laws
use simmis.Prelude.{
  ℕ, ◌+◌, Bool, true, false, List, ◌∷◌, ◌++◌, Option, none, some, leb, ◌==◌, list_eq, nat_eq,
  length, Result, ok, err, ◌>>=◌, ◌>>◌, require, value_error,
}
use simmis.Files.{File, Directory, regular_info}
use simmis.Host.{Host}
use simmis.Inputs.{max_input_json_bytes}
use simmis.Value.{
  Text, Bytes, text, Value, str, null, obj, Dict, closed, item, lookup, is_int, is_str,
}
use simmis.Value.Decode.{Raw, decode}

pub data Phase : Type 0 where
  launch admitted stopped acknowledged : Phase

abbrev pub phase_name : Phase → Text
phase_name launch = text "launch"
phase_name admitted = text "admitted"
phase_name stopped = text "stopped"
phase_name acknowledged = text "acknowledged"

-- MAX_RECORD_BYTES
abbrev pub max_record_bytes : ℕ
max_record_bytes = max_input_json_bytes + 262144

unfoldable pub file_name : Text → Text
file_name phase = phase ++ text ".json"

unfoldable pub is_link : Value → Value → Bool
is_link null null = true
is_link (str s) (str t) = s == t
is_link _ _ = false

unfoldable pub is_obj : Value → Bool
is_obj (obj fs) = true
is_obj _ = false

unfoldable pub optional : Result Value → Result (Option Value)
optional (ok v) = ok (some v)
optional (err e) = err e

module _ (host : Host) where
  unfoldable pub encode : Value → Result Bytes
  encode value = elim (host.dumps value) [ none ↦ err value_error | some b ↦ ok b ]

  unfoldable pub digest : Value → Result Text
  unfolding encode
  digest value = do b ← encode value; ok (host.sha256 b)

  unfoldable pub parse : Bytes → Result Raw
  parse b = elim (host.loads b) [ none ↦ err value_error | some raw ↦ ok raw ]

  -- What `_read` makes of a record that is there.
  unfoldable pub read_file : File → Result Value
  unfolding regular_info parse decode is_obj encode
  read_file f = do
    regular_info f
    require (leb (length f.contents) max_record_bytes)
    raw ← parse f.contents
    value ← decode raw
    require (is_obj value)
    canonical ← encode value
    require (canonical == f.contents)
    ok value

  unfoldable pub read_found : Option File → Result (Option Value)
  unfolding read_file optional
  read_found none = ok none
  read_found (some f) = optional (read_file f)

  -- `_read`: None where the record is missing.
  unfoldable pub read_record : Text → Directory → Result (Option Value)
  unfolding lookup file_name read_found
  read_record phase d = read_found (lookup (file_name phase) d)

  -- digest(previous) if previous is not None else None
  unfoldable pub link_of : Option Value → Result Value
  unfolding digest
  link_of none = ok null
  link_of (some v) = do s ← digest v; ok (str s)

  -- `_common`
  unfoldable pub common : Value → Phase → Option Value → List Text → ℕ → Result Dict
  unfolding closed item is_int is_str link_of is_link
  common value phase previous names version = do
    d ← closed value (text "version" ∷ text "phase" ∷ text "previous" ∷ names)
    v ← item (text "version") d
    require (is_int version v)
    p ← item (text "phase") d
    require (is_str (λ s. s == phase_name phase) p)
    expected ← link_of previous
    given ← item (text "previous") d
    require (is_link given expected)
    ok d
