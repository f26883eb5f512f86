-- ===== src/Inputs/Fetch/Whole.antt =====
-- What `fetch` returns, and the chunks that it is put together from.
use simmis.Prelude.{
  refl, ℕ, zero, suc, ◌≤◌, ◌≡◌, ap, sym, ◌∙◌, subst, true, List, [], ◌∷◌, ◌++◌, Option, none, some,
  arith, ◌==◌, list_eq, nat_eq, nat_beq_iff, list_beq_iff, length, flatten, Result, ok, err, ◌>>=◌,
  require-eq-ok, >>=-eq-ok, ok-injective, Result-cases, Bool-cases, inl, inr,
}
use simmis.Host.{Host}
use simmis.Inputs.{max_input_json_bytes, validate, canonical_uuid}
use simmis.Inputs.Fetch.Sent.{Sent, fetch_loop-Read}
use simmis.Inputs.Validate.{canonical_uuid-eq-ok, IsFrozen, validate-IsFrozen}
use simmis.Inputs.Fetch.{
  Client, Identity, read_part, fetch_loop, fetch, read_bundle, parse_bundle, loaded,
  chunk_arguments,
}
use simmis.Inputs.Fetch.Total.{IsOpen, next-position, IsOpen-next, IsOpen-first, read_part-IsPart}
use simmis.Value.{Text, Bytes, text, Value, str, index, is_str}
use simmis.Value.Decode.{Raw, decode}

is_str-named : (v : Value) (t : Text) → is_str (λ s. s == t) v ≡ true → v ≡ str t
unfolding is_str
is_str-named (str s) t h = ap str ((list_beq_iff s t).0 h)
is_str-named _ t h = cc

module _ (host : Host) where
  -- `encoded` is the bundle that `identity` names, and it says `frozen`.
  pub record IsWhole (frozen config : Value) (identity : Identity) (encoded : Bytes) : Type 0 where
    pub size : length encoded ≡ identity.bytes
    pub small : length encoded ≤ max_input_json_bytes
    pub digest : host.sha256 encoded ≡ identity.sha256
    pub says : (raw : Raw) × (host.loads encoded ≡ some raw) × (decode raw ≡ ok frozen)
    pub named : index frozen (text "input-id") ≡ ok (str identity.input_id)
    pub accepted : IsFrozen host frozen config

  loaded-eq-ok :
      (encoded : Bytes) {raw : Raw} → loaded host encoded ≡ ok raw → host.loads encoded ≡ some raw
  unfolding loaded
  loaded-eq-ok encoded h = ground arith

  parse_bundle-IsWhole :
      (config : Value) (identity : Identity) (encoded : Bytes) {frozen : Value}
      → length encoded ≡ identity.bytes
      → identity.bytes ≤ max_input_json_bytes
      → parse_bundle host config identity encoded ≡ ok frozen
      → IsWhole frozen config identity encoded
  unfolding parse_bundle
  parse_bundle-IsWhole config identity encoded {frozen} size small h =
      let (digest, h) = require-eq-ok (host.sha256 encoded == identity.sha256) _ h in
      let (raw, el, h) = >>=-eq-ok (loaded host encoded) _ h in
      let (value, ed, h) = >>=-eq-ok (decode raw) _ h in
      let (v, ev, h) = >>=-eq-ok (validate host value config) _ h in
      let (w, ew, h) = >>=-eq-ok (index v (text "input-id")) _ h in
      let (same_id, h) = require-eq-ok (is_str (λ s. s == identity.input_id) w) _ h in
      let (same, f) = validate-IsFrozen host value config ev in
      let out : v ≡ frozen = ok-injective h in
      let whole : value ≡ frozen = sym same ∙ out in
      record {
        size = size;
        small = omega arith;
        digest = (list_beq_iff (host.sha256 encoded) identity.sha256).0 digest;
        says = (raw, loaded-eq-ok encoded el, ed ∙ ap ok whole);
        named = rw (← out) (ew ∙ ap ok (is_str-named w identity.input_id same_id));
        accepted = subst (λ x. IsFrozen host x config) whole f;
      }

  module _ {S : Type 0} (call : Client S) where
    fetch_loop-length :
        (fuel : ℕ) (run : Text) (descriptor : Option Identity) (chunks : List Bytes) (offset : ℕ)
        (s : S) {identity : Identity} {read : List Bytes}
        → IsOpen host descriptor chunks offset
        → (fetch_loop host call fuel run descriptor chunks offset s).0 ≡ ok (identity, read)
        → (length (flatten read) ≡ identity.bytes) × (identity.bytes ≤ max_input_json_bytes)
    unfolding fetch_loop
    fetch_loop-length zero run descriptor chunks offset s o f = cc
    fetch_loop-length (suc fuel) run descriptor chunks offset s o f =
        elim (Result-cases (reply >>= read_part host descriptor offset)) [
          | inr (e', bad) ↦ cc (rw (bad, fetch_loop) at f)
          | inl (part, good) ↦ elim (Result-cases reply) [
            | inr (raised, r) ↦ cc (rw r at good)
            | inl (chunk, r) ↦
                let p = read_part-IsPart host descriptor offset chunk (rw r at good) in
                elim (Bool-cases (part.end == part.identity.bytes)) [
                  | inl whole ↦
                      subst
                        (λ (x : Identity × List Bytes).
                          (length (flatten x.1) ≡ x.0.bytes) × (x.0.bytes ≤ max_input_json_bytes))
                        (ok-injective (rw (good, whole, fetch_loop) at f))
                        (
                          next-position host o p
                              ∙ (nat_beq_iff part.end part.identity.bytes).0 whole,
                          p.bounded,
                        )
                  | inr more ↦
                      fetch_loop-length fuel run (some part.identity) (chunks ++ part.contents ∷ [])
                        part.end
                        (call (text "simmis_worker-input") (chunk_arguments run offset) s).1
                        (IsOpen-next host o p more) (rw (good, more, fetch_loop) at f)
                ]
          ]
        ]
      where
        reply : Result Value
        reply = (call (text "simmis_worker-input") (chunk_arguments run offset) s).0

    -- The replies name one input, have all its parts in order, and together say `frozen`.
    pub record IsFetched (run frozen config : Value) (s : S) : Type 0 where
      pub name : Text
      pub run_is : run ≡ str name
      pub identity : Identity
      pub first : Bytes
      pub rest : List Bytes
      pub sent : Sent host call name identity (first ∷ rest) 0 s
      pub whole : IsWhole frozen config identity (flatten (first ∷ rest))

    read_bundle-IsWhole :
        (r : Result Text) (run config : Value) (s : S) {frozen : Value}
        → canonical_uuid run ≡ r
        → (read_bundle host call r config s).0 ≡ ok frozen
        → IsFetched run frozen config s
    unfolding read_bundle
    read_bundle-IsWhole (err e) run config s u h = cc
    read_bundle-IsWhole (ok name) run config s {frozen} u h =
        let loop = fetch_loop host call max_input_json_bytes name none [] 0 s in
        let ((identity, chunks), e, h) = >>=-eq-ok loop.0 _ h in
        let (size, small) =
          fetch_loop-length max_input_json_bytes name none [] 0 s (IsOpen-first host) e in
        let (first, rest, same, _, sent) =
          fetch_loop-Read host call name max_input_json_bytes none [] 0 s e in
        record {
          name = name;
          run_is = (canonical_uuid-eq-ok run u).0;
          identity = identity;
          first = first;
          rest = rest;
          sent = sent;
          whole =
              subst (λ (cs : List Bytes). IsWhole frozen config identity (flatten cs)) same
                (parse_bundle-IsWhole config identity (flatten chunks) size small h);
        }

    -- Where `fetch` returns, the client answered its calls, from offset 0 on and each at the offset
    -- where the part before ended, with chunks that all name the same input, length and digest, and
    -- the last of which ends at that length. The decoded parts of these chunks, one after the other,
    -- are at most 4194304 bytes and have that length and that digest; they decode to what is
    -- returned, which has the identity that the chunks name and is an accepted input for `config`.
    pub fetch-IsWhole :
        (run config : Value) (s : S) {frozen : Value}
        → (fetch host call run config s).0 ≡ ok frozen
        → IsFetched run frozen config s
    unfolding fetch
    fetch-IsWhole run config s h = read_bundle-IsWhole (canonical_uuid run) run config s refl h
