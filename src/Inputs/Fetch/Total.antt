-- ===== src/Inputs/Fetch/Total.antt =====
-- The rounds of `fetch` and its errors.
use mathlib.Core.Option.{some-injective}
use simmis.Prelude.{
  list_beq, err-injective, flatten, Refuses-bind, Refuses-require, Refuses-ok, ◌||◌, append-nil,
  length-append, ◌⊎◌, Error, contains, pos, and-eq-true, subst, Result-cases, ℕ, zero, suc, ◌+◌,
  ◌≤◌, ◌<◌, ◌≡◌, refl, ap, sym, ◌∙◌, true, false, ◌&&◌, List, [], ◌∷◌, ◌++◌, Option, none, some,
  arith, leb, leb→le, ◌==◌, list_eq, nat_eq, length, Result, ok, err, ◌>>=◌, require-eq-ok,
  >>=-eq-ok, ok-injective, value_error, Refuses, Bool-cases, inl, inr,
}
use simmis.Host.{Host}
use simmis.Inputs.{max_input_json_bytes, validate, decode_base64, canonical_uuid}
use simmis.Inputs.Files.{Refuses-decode_base64}
use simmis.Value.Laws.{Refuses-item_of_exact, contains-append_left}
use simmis.Inputs.Validate.{Refuses-validate, Refuses-canonical_uuid, validate-IsFrozen}
use simmis.Inputs.Fetch.{
  read_bundle, loaded, chunk_fields, Client, Identity, Part, chunk_dict, identity_of, read_part,
  is_known, is_well_placed, int_in, fetch_loop, fetch, parse_bundle, chunk_arguments, sha256_text,
}
use simmis.Value.DecodeLaws.{Refuses-decode}
use simmis.Value.Decode.{decode}
use simmis.Value.{
  index, is_str, obj, entries, has_exactly, int, Text, Bytes, text, Value, str, Dict, item, is_int,
  is_text,
}

-- What a chunk says of itself, once read at `offset`.
pub record IsPart (descriptor : Option Identity) (offset : ℕ) (part : Part) : Type 0 where
  pub known : is_known descriptor part.identity ≡ true
  pub progress : part.end ≡ offset + length part.contents
  pub some_bytes : 1 ≤ length part.contents
  pub in_bundle : part.end ≤ part.identity.bytes
  pub bounded : part.identity.bytes ≤ max_input_json_bytes

int_in-le : (a b : ℕ) (v : Value) {n : ℕ} → int_in a b v ≡ ok n → n ≤ b
unfolding int_in
int_in-le a b (int (pos m)) {n} h =
    let (t, e) = require-eq-ok (leb a m && leb m b) (ok m) h in
    let same : m ≡ n = ok-injective e in
    rw (← same) (leb→le m b (and-eq-true (leb a m) (leb m b) t).1)
int_in-le a b _ h = cc

identity_of-le : (d : Dict) {i : Identity} → identity_of d ≡ ok i → i.bytes ≤ max_input_json_bytes
unfolding identity_of
identity_of-le d {i} h =
    let (u, _, h) = >>=-eq-ok (item (text "input-id") d) _ h in
    let (input_id, _, h) = >>=-eq-ok (canonical_uuid u) _ h in
    let (v, _, h) = >>=-eq-ok (item (text "bytes") d) _ h in
    let (n, en, h) = >>=-eq-ok (int_in 1 max_input_json_bytes v) _ h in
    let (w, _, h) = >>=-eq-ok (item (text "sha256") d) _ h in
    let (s, _, h) = >>=-eq-ok (sha256_text w) _ h in
    subst (λ (j : Identity). j.bytes ≤ max_input_json_bytes) (ok-injective h)
      (int_in-le 1 max_input_json_bytes v en)

is_well_placed-le :
    (size end total : ℕ) (chunk : Value) (d : Dict)
    → is_well_placed size end total chunk d ≡ true
    → (1 ≤ size) × (end ≤ total)
unfolding is_well_placed
is_well_placed-le size end total chunk d h = ground arith

length-flatten_snoc :
    (chunks : List Bytes) (c : Bytes)
    → length (flatten (chunks ++ c ∷ [])) ≡ length (flatten chunks) + length c
unfolding flatten
length-flatten_snoc [] c = rw append-nil (omega arith)
length-flatten_snoc (b ∷ chunks) c =
    rw (length-append b (flatten (chunks ++ c ∷ [])), length-append b (flatten chunks))
      (omega (arith, length-flatten_snoc chunks c))

-- Both key sets of a chunk hold the five fields.
chunk_dict-item :
    (v : Value) {d : Dict} (k : Text)
    → chunk_dict v ≡ ok d
    → contains chunk_fields k ≡ true
    → Refuses (item k d)
unfolding chunk_dict
chunk_dict-item (obj fs) {d} k h m =
    let base = has_exactly chunk_fields (entries fs) in
    let more = has_exactly (chunk_fields ++ text "next-offset" ∷ []) (entries fs) in
    let (t, e) = require-eq-ok (base || more) (ok (entries fs)) h in
    let same : entries fs ≡ d = ok-injective e in
    subst (λ d. Refuses (item k d)) same
      (elim (Bool-cases base) [
        | inl now ↦ Refuses-item_of_exact chunk_fields (entries fs) k now m
        | inr not_base ↦
            Refuses-item_of_exact (chunk_fields ++ text "next-offset" ∷ []) (entries fs) k
              (ground arith) (contains-append_left chunk_fields (text "next-offset" ∷ []) k m)
      ])
chunk_dict-item _ k h m = cc

Refuses-chunk_dict : (v : Value) → Refuses (chunk_dict v)
unfolding chunk_dict
Refuses-chunk_dict v = record { only = λ e h. ground arith }

Refuses-int_in : (a b : ℕ) (v : Value) → Refuses (int_in a b v)
unfolding int_in
Refuses-int_in a b v = record { only = λ e h. ground arith }

Refuses-sha256_text : (v : Value) → Refuses (sha256_text v)
unfolding sha256_text
Refuses-sha256_text v = record { only = λ e h. ground arith }

Refuses-identity_of : (chunk : Value) {d : Dict} → chunk_dict chunk ≡ ok d → Refuses (identity_of d)
unfolding identity_of contains list_beq
Refuses-identity_of chunk {d} c =
    Refuses-bind (item (text "input-id") d) _ (chunk_dict-item chunk (text "input-id") c refl)
      λ u _. Refuses-bind (canonical_uuid u) _ (Refuses-canonical_uuid u) λ a _.
        Refuses-bind (item (text "bytes") d) _ (chunk_dict-item chunk (text "bytes") c refl) λ v _.
          Refuses-bind (int_in 1 max_input_json_bytes v) _ (Refuses-int_in 1 max_input_json_bytes v)
            λ n _.
              Refuses-bind (item (text "sha256") d) _ (chunk_dict-item chunk (text "sha256") c refl)
                λ w _.
                  Refuses-bind (sha256_text w) _ (Refuses-sha256_text w)
                    λ s _. Refuses-ok (record { input_id = a; bytes = n; sha256 = s })

module _ (host : Host) where
  pub read_part-IsPart :
      (descriptor : Option Identity) (offset : ℕ) (chunk : Value) {part : Part}
      → read_part host descriptor offset chunk ≡ ok part
      → IsPart descriptor offset part
  unfolding read_part
  read_part-IsPart descriptor offset chunk {part} h =
      let (d, _, h) = >>=-eq-ok (chunk_dict chunk) _ h in
      let (i, ei, h) = >>=-eq-ok (identity_of d) _ h in
      let (at, _, h) = >>=-eq-ok (item (text "offset") d) _ h in
      let (_, h) = require-eq-ok (is_int offset at) _ h in
      let (known, h) = require-eq-ok (is_known descriptor i) _ h in
      let (base64, _, h) = >>=-eq-ok (item (text "base64") d) _ h in
      let (_, h) = require-eq-ok (is_text 0 21848 base64) _ h in
      let (c, _, h) = >>=-eq-ok (decode_base64 host base64) _ h in
      let end = offset + length c in
      let (placed, h) = require-eq-ok (is_well_placed (length c) end i.bytes chunk d) _ h in
      let (size, fits) = is_well_placed-le (length c) end i.bytes chunk d placed in
      subst (IsPart descriptor offset) (ok-injective h) (record {
        known = known;
        progress = refl;
        some_bytes = size;
        in_bundle = fits;
        bounded = identity_of-le d ei;
      })

  Refuses-loaded : (encoded : Bytes) → Refuses (loaded host encoded)
  unfolding loaded
  Refuses-loaded encoded = record { only = λ e h. ground arith }

  Refuses-read_part :
      (descriptor : Option Identity) (offset : ℕ) (chunk : Value)
      → Refuses (read_part host descriptor offset chunk)
  unfolding read_part identity_of contains list_beq
  Refuses-read_part descriptor offset chunk =
      Refuses-bind (chunk_dict chunk) _ (Refuses-chunk_dict chunk) λ d c.
        Refuses-bind (identity_of d) _ (Refuses-identity_of chunk c) λ i _.
          Refuses-bind (item (text "offset") d) _ (chunk_dict-item chunk (text "offset") c refl)
            λ at _. Refuses-require (is_int offset at) _ λ _.
              Refuses-require (is_known descriptor i) _ λ _.
                Refuses-bind (item (text "base64") d) _
                  (chunk_dict-item chunk (text "base64") c refl)
                  λ b _. Refuses-require (is_text 0 21848 b) _ λ _.
                    Refuses-bind (decode_base64 host b) _ (Refuses-decode_base64 host b) λ x _.
                      Refuses-require
                        (is_well_placed (length x) (offset + length x) i.bytes chunk d) _
                        λ _.
                          Refuses-ok
                            (record { identity = i; contents = x; end = offset + length x })

  -- What has been read before a round: the chunks make up `offset` bytes of a bundle not yet whole.
  pub record IsOpen (descriptor : Option Identity) (chunks : List Bytes) (offset : ℕ) : Type 0 where
    pub position : length (flatten chunks) ≡ offset
    pub unfinished :
        (i : Identity) → descriptor ≡ some i → (offset < i.bytes) × (i.bytes ≤ max_input_json_bytes)
    pub started : descriptor ≡ none → offset ≡ 0

  pub IsOpen-first : IsOpen none [] 0
  unfolding flatten
  IsOpen-first = record { position = refl; unfinished = λ i e. cc; started = λ e. refl }

  pub next-position :
      {descriptor : Option Identity} {chunks : List Bytes} {offset : ℕ} {part : Part}
      → IsOpen descriptor chunks offset
      → IsPart descriptor offset part
      → length (flatten (chunks ++ part.contents ∷ [])) ≡ part.end
  next-position o p = rw length-flatten_snoc (omega (arith, o.position, p.progress))

  pub IsOpen-next :
      {descriptor : Option Identity} {chunks : List Bytes} {offset : ℕ} {part : Part}
      → IsOpen descriptor chunks offset
      → IsPart descriptor offset part
      → (part.end == part.identity.bytes) ≡ false
      → IsOpen (some part.identity) (chunks ++ part.contents ∷ []) part.end
  IsOpen-next {part} o p more = record {
    position = next-position o p;
    unfinished = λ i e.
        subst (λ (j : Identity). (part.end < j.bytes) × (j.bytes ≤ max_input_json_bytes))
          (some-injective part.identity i e) (ground (arith, p.in_bundle, p.bounded));
    started = λ e. cc;
  }

  module _ {S : Type 0} (call : Client S) where
    -- The client itself raised `e` at some call.
    abbrev pub Raised : Error → Type 0
    Raised e = (name : Text) × (arguments : Value) × (s : S) × ((call name arguments s).0 ≡ err e)

    fetch_loop-error :
        (fuel : ℕ) (run : Text) (descriptor : Option Identity) (chunks : List Bytes) (offset : ℕ)
        (s : S) (e : Error)
        → IsOpen descriptor chunks offset
        → max_input_json_bytes ≤ fuel + offset
        → (fetch_loop host call fuel run descriptor chunks offset s).0 ≡ err e
        → (e ≡ value_error) ⊎ Raised e
    unfolding fetch_loop
    fetch_loop-error zero run none chunks offset s e o h f = absurd (omega (arith, o.started refl))
    fetch_loop-error zero run (some i) chunks offset s e o h f =
        absurd (omega (arith, o.unfinished i refl))
    fetch_loop-error (suc fuel) run descriptor chunks offset s e o h f =
        elim (Result-cases (reply >>= read_part host descriptor offset)) [
          | inr (e', bad) ↦
              let same : e' ≡ e =
                err-injective {A = Identity × List Bytes} (rw (bad, fetch_loop) at f) in
              elim (Result-cases reply) [
                | inr (raised, r) ↦ inr (
                  text "simmis_worker-input",
                  chunk_arguments run offset,
                  s,
                  r ∙ ap err (err-injective {A = Part} (rw r at bad) ∙ same),
                )
                | inl (chunk, r) ↦
                    inl
                      (sym same ∙ (Refuses-read_part descriptor offset chunk).only e' (rw r at bad))
              ]
          | inl (part, good) ↦ elim (Result-cases reply) [
            | inr (raised, r) ↦ cc (rw r at good)
            | inl (chunk, r) ↦
                let p = read_part-IsPart descriptor offset chunk (rw r at good) in
                elim (Bool-cases (part.end == part.identity.bytes)) [
                  | inl whole ↦ cc (rw (good, whole, fetch_loop) at f)
                  | inr more ↦
                      fetch_loop-error fuel run (some part.identity) (chunks ++ part.contents ∷ [])
                        part.end
                        (call (text "simmis_worker-input") (chunk_arguments run offset) s).1 e
                        (IsOpen-next o p more) (omega (arith, p.progress, p.some_bytes))
                        (rw (good, more, fetch_loop) at f)
                ]
          ]
        ]
      where
        reply : Result Value
        reply = (call (text "simmis_worker-input") (chunk_arguments run offset) s).0

    Refuses-parse_bundle :
        (config : Value) (identity : Identity) (encoded : Bytes)
        → Refuses (parse_bundle host config identity encoded)
    unfolding parse_bundle
    Refuses-parse_bundle config identity encoded =
        Refuses-require (host.sha256 encoded == identity.sha256) _ λ _.
          Refuses-bind (loaded host encoded) _ (Refuses-loaded encoded) λ raw _.
            Refuses-bind (decode raw) _ (Refuses-decode raw) λ value _.
              Refuses-bind (validate host value config) _ (Refuses-validate host value config)
                λ frozen v.
                  let (same, f) = validate-IsFrozen host value config v in
                  let (u, e, _) = f.identity in
                  Refuses-bind (index frozen (text "input-id")) _
                    (rw (same, e) (Refuses-ok (str u)))
                    λ w _.
                      Refuses-require (is_str (λ s. s == identity.input_id) w) _
                        λ _. Refuses-ok frozen

    read_bundle-error :
        (run : Result Text) (config : Value) (s : S) (e : Error)
        → Refuses run
        → (read_bundle host call run config s).0 ≡ err e
        → (e ≡ value_error) ⊎ Raised e
    unfolding read_bundle
    read_bundle-error (err refused) config s e r h =
        inl (r.only e (ap err (err-injective {A = Value} h)))
    read_bundle-error (ok id) config s e r h =
        elim (Result-cases (fetch_loop host call max_input_json_bytes id none [] 0 s).0) [
          | inr (lost, bad) ↦
              fetch_loop-error max_input_json_bytes id none [] 0 s e IsOpen-first (omega arith)
                (bad ∙ ap err (err-injective {A = Value} (rw bad at h)))
          | inl (read, done) ↦
              inl ((Refuses-parse_bundle config read.0 (flatten read.1)).only e (rw done at h))
        ]

    -- `fetch` ends, whatever the client answers: it needs no more rounds than the policy's bound on
    -- an input's bytes, and it fails only with a ValueError or with what a call raised.
    pub fetch-error :
        (run config : Value) (s : S) (e : Error)
        → (fetch host call run config s).0 ≡ err e
        → (e ≡ value_error) ⊎ Raised e
    unfolding fetch
    fetch-error run config s e h =
        read_bundle-error (canonical_uuid run) config s e (Refuses-canonical_uuid run) h
