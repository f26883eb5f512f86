-- ===== src/Inputs.antt =====
-- scripts/worker_inputs.py: the bounded, frozen input of one task.
pub mod Files
pub mod Bundle
pub mod Validate
pub mod Fetch
use simmis.Prelude.{
  ℕ, zero, suc, ◌+◌, ◌-◌, ◌≡◌, refl, Bool, true, false, ◌&&◌, ◌||◌, not, List, [], ◌∷◌, ◌++◌, leb,
  ltb, ◌==◌, contains, all, any, length, take, Option, none, some, Result, ok, err, ◌>>=◌, ◌>>◌,
  require, value_error, list_eq, nat_eq, if◌then◌else◌, pos, list_beq,
}
use simmis.Host.{Host}
use simmis.Paths.{path_parts, collides, split, slash}
use simmis.Value.{
  index, Text, Bytes, text, Value, str, int, obj, Dict, item, closed, is_int, is_int_in, is_str,
  is_text, is_run, keys, entries, fields, dict,
}
use simmis.Value.Equality.{value_eq}

-- POLICY
abbrev pub max_files : ℕ
max_files = 100

abbrev pub max_file_bytes : ℕ
max_file_bytes = 1048576

abbrev pub max_total_bytes : ℕ
max_total_bytes = 2097152

abbrev pub max_input_json_bytes : ℕ
max_input_json_bytes = 4194304

abbrev pub chunk_bytes : ℕ
chunk_bytes = 16384

abbrev pub lease_ttl_ms : ℕ
lease_ttl_ms = 30000

abbrev pub policy : List (Text × ℕ)
policy =
    (text "version", 2)
    ∷ (text "max-files", max_files)
    ∷ (text "max-file-bytes", max_file_bytes)
    ∷ (text "max-total-bytes", max_total_bytes)
    ∷ (text "max-input-json-bytes", max_input_json_bytes)
    ∷ (text "chunk-bytes", chunk_bytes)
    ∷ (text "lease-ttl-ms", lease_ttl_ms)
    ∷ []

unfoldable pub is_hex : ℕ → Bool
is_hex c = leb b'0' c && leb c b'9' || leb b'a' c && leb c b'f'

-- re.fullmatch(r"[0-9a-f]{64}", s)
unfoldable pub is_sha256 : Text → Bool
unfolding is_run is_hex
is_sha256 = is_run is_hex 64

unfoldable pub is_uuid_from : ℕ → Text → Bool
unfolding contains is_hex
is_uuid_from i [] = true
is_uuid_from i (c ∷ cs) =
    (if contains (8 ∷ 13 ∷ 18 ∷ 23 ∷ []) i then c == b'-' else is_hex c) && is_uuid_from (i + 1) cs

-- The texts that str(uuid.UUID(s)) can print, 8-4-4-4-12 lower-case digits.
unfoldable pub is_uuid : Text → Bool
unfolding is_uuid_from
is_uuid s = length s == 36 && is_uuid_from 0 s

unfoldable pub canonical_uuid : Value → Result Text
unfolding is_uuid
canonical_uuid (str s) = do require (is_uuid s); ok s
canonical_uuid _ = err value_error

-- The fields of a file record.
pub record Declared : Type 0 where
  pub base64 : Value
  pub bytes : Value
  pub sha256 : Value
  pub mode : Value

abbrev pub file_fields : List Text
file_fields = text "base64" ∷ text "bytes" ∷ text "sha256" ∷ text "mode" ∷ []

unfoldable pub declared : Value → Result Declared
unfolding closed item
declared file = do
  f ← closed file file_fields
  base64 ← item (text "base64") f
  bytes ← item (text "bytes") f
  sha256 ← item (text "sha256") f
  mode ← item (text "mode") f
  ok (record { base64 = base64; bytes = bytes; sha256 = sha256; mode = mode })

unfoldable pub is_bounded : Declared → Bool
unfolding is_text is_int is_int_in is_str is_sha256
is_bounded d =
    is_text 0 1398104 d.base64
    && is_int_in 0 max_file_bytes d.bytes
    && (is_int 0o100644 d.mode || is_int 0o100755 d.mode)
    && is_str is_sha256 d.sha256

pub bytes_of : Option Bytes → Result Bytes
bytes_of none = err value_error
bytes_of (some b) = ok b

unfoldable pub check_policy : List (Text × ℕ) → Dict → Result (Unit {0})
unfolding item is_int
check_policy [] given = ok tt
check_policy ((k, v) ∷ rest) given = do
  x ← item k given
  require (is_int v x)
  check_policy rest given

unfoldable pub check_limits : Value → Result (Unit {0})
unfolding closed item is_int_in is_str contains list_beq
check_limits limits = do
  l ← closed limits (text "timeout-ms" ∷ text "settlement" ∷ [])
  timeout ← item (text "timeout-ms") l
  settlement ← item (text "settlement") l
  require (
      is_int_in 1000 600000 timeout
      && is_str (contains (text "review" ∷ text "discard" ∷ [])) settlement)

-- type(value) is dict
unfoldable pub as_dict : Value → Result Dict
as_dict (obj fs) = ok (entries fs)
as_dict _ = err value_error

abbrev pub frozen_fields : List Text
frozen_fields =
    text "input-id"
    ∷ text "task"
    ∷ text "config"
    ∷ text "files"
    ∷ text "limits"
    ∷ text "policy"
    ∷ []

abbrev pub config_fields : List Text
config_fields = text "adapter" ∷ text "version" ∷ text "model" ∷ text "policy" ∷ []

module _ (host : Host) where
  unfoldable pub decode_base64 : Value → Result Bytes
  unfolding bytes_of
  decode_base64 (str s) = bytes_of (host.b64decode s)
  decode_base64 _ = err value_error

  unfoldable pub is_declared : Declared → Bytes → Bool
  unfolding is_int is_str
  is_declared d contents =
      is_int (length contents) d.bytes && is_str (λ s. host.sha256 contents == s) d.sha256

  -- Decode one file of a bundle, against its declared size, mode and digest.
  unfoldable pub file_bytes : Value → Result Bytes
  unfolding declared is_bounded is_declared decode_base64
  file_bytes file = do
    d ← declared file
    require (is_bounded d)
    contents ← decode_base64 d.base64
    require (is_declared d contents)
    ok contents

  -- The loop over frozen["files"]: `names` are the keys of the whole dict, `total` the bytes so far.
  unfoldable pub check_files : List Text → Dict → ℕ → Result ℕ
  unfolding path_parts collides file_bytes
  check_files names [] total = ok total
  check_files names ((path, file) ∷ files) total = do
    parts ← path_parts host.casefold (str path)
    require (not (collides names parts))
    contents ← file_bytes file
    require (leb (total + length contents) max_total_bytes)
    check_files names files (total + length contents)

  unfoldable pub check_task : Value → Value → Value → Result (Unit {0})
  unfolding index is_str is_text value_eq contains list_beq
  check_task pinned config task = do
    require (value_eq host.floats pinned config)
    adapter ← index config (text "adapter")
    require (is_str (contains (text "codex" ∷ text "claude-code" ∷ [])) adapter)
    version ← index config (text "version")
    require (is_text 1 200 version)
    model ← index config (text "model")
    require (is_text 1 200 model)
    name ← index config (text "policy")
    require (is_str (λ s. s == text "local-trusted-v1") name)
    require (is_text 1 16000 task)

  -- The checks of `validate` that come before its files.
  unfoldable pub check_header : Dict → Value → Result (Unit {0})
  unfolding item canonical_uuid closed check_task check_policy check_limits keys
  check_header f config = do
    input_id ← item (text "input-id") f
    _ ← canonical_uuid input_id
    pinned ← item (text "config") f
    _ ← closed pinned config_fields
    task ← item (text "task") f
    check_task pinned config task
    stated ← item (text "policy") f
    given ← closed stated (keys policy)
    check_policy policy given
    limits ← item (text "limits") f
    check_limits limits

  unfoldable pub check_bundle : Value → Result (Unit {0})
  unfolding as_dict check_files keys
  check_bundle files = do
    d ← as_dict files
    require (leb (length d) max_files)
    _ ← check_files (keys d) d 0
    ok tt

  unfoldable pub validate : Value → Value → Result Value
  unfolding closed item check_header check_bundle
  validate frozen config = do
    f ← closed frozen frozen_fields
    check_header f config
    files ← item (text "files") f
    check_bundle files
    ok frozen
