-- ===== src/Inputs/Fetch.antt =====
-- `fetch` of scripts/worker_inputs.py: one immutable input, read in bounded chunks over an
-- authenticated call, and checked as a whole before use.
pub mod Kept
pub mod Sent
pub mod Total
pub mod Whole
use simmis.Prelude.{
  ℕ, zero, suc, ◌+◌, ◌≡◌, refl, Bool, true, false, ◌&&◌, ◌||◌, not, List, [], ◌∷◌, ◌++◌, Option,
  none, some, leb, ◌==◌, list_eq, nat_eq, contains, list_beq, length, flatten, pos, Result, ok, err,
  ◌>>=◌, ◌>>◌, require, value_error, out_of_fuel, if◌then◌else◌,
}
use simmis.Inputs.{
  is_str, canonical_uuid, is_sha256, decode_base64, validate, max_input_json_bytes, chunk_bytes,
}
use simmis.Host.{Host}
use simmis.Value.{
  is_str, Text, Bytes, text, Value, str, int, obj, Dict, dict, entries, item, index, keys, is_int,
  is_text, has_exactly,
}
use simmis.Value.Decode.{Raw, decode}

-- An authenticated call of a named tool, over the state of its connection.
abbrev pub Client : Type 0 → Type 0
Client S = Text → Value → S → Result Value × S

abbrev pub chunk_fields : List Text
chunk_fields = text "input-id" ∷ text "bytes" ∷ text "sha256" ∷ text "offset" ∷ text "base64" ∷ []

-- The two key sets that a chunk may have.
unfoldable pub chunk_dict : Value → Result Dict
unfolding has_exactly
chunk_dict (obj fs) = do
  require (
      has_exactly chunk_fields (entries fs)
      || has_exactly (chunk_fields ++ text "next-offset" ∷ []) (entries fs))
  ok (entries fs)
chunk_dict _ = err value_error

unfoldable pub int_in : ℕ → ℕ → Value → Result ℕ
int_in first last (int (pos n)) = do require (leb first n && leb n last); ok n
int_in first last _ = err value_error

unfoldable pub sha256_text : Value → Result Text
unfolding is_sha256
sha256_text (str s) = do require (is_sha256 s); ok s
sha256_text _ = err value_error

pub record Identity : Type 0 where
  pub input_id : Text
  pub bytes : ℕ
  pub sha256 : Text

abbrev same_identity : Identity → Identity → Bool
same_identity a b = a.input_id == b.input_id && a.bytes == b.bytes && a.sha256 == b.sha256

-- descriptor is None or identity == descriptor
unfoldable pub is_known : Option Identity → Identity → Bool
is_known none identity = true
is_known (some d) identity = same_identity identity d

unfoldable pub is_next : ℕ → Value → Bool
unfolding index is_int
is_next end chunk = elim (index chunk (text "next-offset")) [ ok v ↦ is_int end v | err e ↦ false ]

unfoldable pub has_next : Dict → Bool
unfolding contains keys
has_next d = contains (keys d) (text "next-offset")

pub record Part : Type 0 where
  pub identity : Identity
  pub contents : Bytes
  pub end : ℕ

-- The length conditions on a chunk that ends at `end` of `total` bytes.
unfoldable pub is_well_placed : ℕ → ℕ → ℕ → Value → Dict → Bool
unfolding is_next has_next
is_well_placed size end total chunk d =
    leb 1 size
    && leb size chunk_bytes
    && leb end total
    && (if end == total then not (has_next d) else is_next end chunk)

unfoldable pub identity_of : Dict → Result Identity
unfolding item canonical_uuid int_in sha256_text
identity_of d = do
  u ← item (text "input-id") d
  input_id ← canonical_uuid u
  n ← item (text "bytes") d
  bytes ← int_in 1 max_input_json_bytes n
  s ← item (text "sha256") d
  sha256 ← sha256_text s
  ok (record { input_id = input_id; bytes = bytes; sha256 = sha256 })

abbrev pub chunk_arguments : Text → ℕ → Value
chunk_arguments run offset = dict (
    (text "run", str run)
    ∷ (text "offset", int (pos offset))
    ∷ (text "length", int (pos chunk_bytes))
    ∷ [])

module _ (host : Host) where
  -- One round's checks of the reply.
  unfoldable pub read_part : Option Identity → ℕ → Value → Result Part
  unfolding chunk_dict identity_of item is_int is_known is_text decode_base64 is_well_placed
  read_part descriptor offset chunk = do
    d ← chunk_dict chunk
    identity ← identity_of d
    at ← item (text "offset") d
    require (is_int offset at)
    require (is_known descriptor identity)
    base64 ← item (text "base64") d
    require (is_text 0 21848 base64)
    contents ← decode_base64 host base64
    require (is_well_placed (length contents) (offset + length contents) identity.bytes chunk d)
    ok (record { identity = identity; contents = contents; end = offset + length contents })

  unfoldable pub loaded : Bytes → Result Raw
  loaded encoded = elim (host.loads encoded) [ none ↦ err value_error | some raw ↦ ok raw ]

  unfoldable pub parse_bundle : Value → Identity → Bytes → Result Value
  unfolding loaded decode validate index is_str
  parse_bundle config identity encoded = do
    require (host.sha256 encoded == identity.sha256)
    raw ← loaded encoded
    value ← decode raw
    frozen ← validate host value config
    u ← index frozen (text "input-id")
    require (is_str (λ s. s == identity.input_id) u)
    ok frozen

  module _ {S : Type 0} (call : Client S) where
    -- `while True`, over descriptor, chunks and offset. The number bounds the rounds.
    unfoldable pub fetch_loop :
        ℕ → Text → Option Identity → List Bytes → ℕ → S → Result (Identity × List Bytes) × S
    fetch_loop zero run descriptor chunks offset s = (err out_of_fuel, s)
    fetch_loop (suc fuel) run descriptor chunks offset s =
        let (reply, s') = call (text "simmis_worker-input") (chunk_arguments run offset) s in
        elim (reply >>= read_part descriptor offset) [
          | err e ↦ (err e, s')
          | ok part ↦
              let read = chunks ++ part.contents ∷ [] in
              let rest = fetch_loop fuel run (some part.identity) read part.end s' in
              if part.end == part.identity.bytes then (ok (part.identity, read), s') else rest
        ]

    unfoldable pub read_bundle : Result Text → Value → S → Result Value × S
    read_bundle (err e) config s = (err e, s)
    read_bundle (ok run) config s =
        let (r, s') = fetch_loop max_input_json_bytes run none [] 0 s in
        (r >>= (λ (identity, chunks). parse_bundle config identity (flatten chunks)), s')

    unfoldable pub fetch : Value → Value → S → Result Value × S
    unfolding read_bundle
    fetch run config s = read_bundle (canonical_uuid run) config s
