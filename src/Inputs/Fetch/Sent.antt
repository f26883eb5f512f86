-- ===== src/Inputs/Fetch/Sent.antt =====
-- What the replies to the calls of `fetch` say, from the first one to the one that ends the input.
use simmis.Prelude.{
  ◌&&◌, ℕ, zero, suc, ◌+◌, ◌≡◌, refl, ap, sym, ◌∙◌, subst, true, List, [], ◌∷◌, ◌++◌, Option, none,
  some, arith, ◌==◌, list_eq, nat_eq, nat_beq_iff, list_beq_iff, length, pos, Result, ok, ◌>>=◌,
  require-eq-ok, >>=-eq-ok, ok-injective, Result-cases, Bool-cases, inl, inr, append_assoc, leb,
}
use simmis.Inputs.{bytes_of, max_input_json_bytes, canonical_uuid, decode_base64, bytes_of}
use simmis.Host.{Host}
use simmis.Inputs.Validate.{canonical_uuid-eq-ok}
use simmis.Inputs.Fetch.{
  Client, Identity, Part, read_part, fetch_loop, chunk_arguments, chunk_dict, identity_of, int_in,
  sha256_text, is_known, is_well_placed,
}
use simmis.Inputs.Fetch.Total.{read_part-IsPart}
use simmis.Value.{
  Text, Bytes, text, Value, str, int, obj, Dict, index, item, is_int, is_text, entries,
}

module _ (host : Host) where
  -- A chunk that names an input and has these bytes of it at this offset.
  pub record Says (identity : Identity) (offset : ℕ) (contents : Bytes) (chunk : Value)
      : Type 0 where
    pub input_id_is : index chunk (text "input-id") ≡ ok (str identity.input_id)
    pub bytes_is : index chunk (text "bytes") ≡ ok (int (pos identity.bytes))
    pub sha256_is : index chunk (text "sha256") ≡ ok (str identity.sha256)
    pub offset_is : index chunk (text "offset") ≡ ok (int (pos offset))
    pub base64 : Text
    pub base64_is : index chunk (text "base64") ≡ ok (str base64)
    pub decoded : host.b64decode base64 ≡ some contents

  chunk_dict-index :
      (chunk : Value) {d : Dict} (k : Text) → chunk_dict chunk ≡ ok d → index chunk k ≡ item k d
  unfolding chunk_dict index
  chunk_dict-index (obj fs) {d} k h =
      let (_, h) = require-eq-ok _ (ok (entries fs)) h in ap (item k) (ok-injective h)
  chunk_dict-index _ k h = cc

  int_in-eq : (a b : ℕ) (v : Value) {n : ℕ} → int_in a b v ≡ ok n → v ≡ int (pos n)
  unfolding int_in
  int_in-eq a b (int (pos m)) h =
      let (_, h) = require-eq-ok (leb a m && leb m b) (ok m) h in
      ap (λ (x : ℕ). int (pos x)) (ok-injective h)
  int_in-eq a b _ h = cc

  sha256_text-eq : (v : Value) {s : Text} → sha256_text v ≡ ok s → v ≡ str s
  unfolding sha256_text
  sha256_text-eq (str t) h = let (_, h) = require-eq-ok _ (ok t) h in ap str (ok-injective h)
  sha256_text-eq _ h = cc

  is_int-eq : (n : ℕ) (v : Value) → is_int n v ≡ true → v ≡ int (pos n)
  unfolding is_int
  is_int-eq n (int (pos m)) h = ap (λ (x : ℕ). int (pos x)) ((nat_beq_iff m n).0 h)
  is_int-eq n _ h = cc

  bytes_of-eq : (o : Option Bytes) {c : Bytes} → bytes_of o ≡ ok c → o ≡ some c
  unfolding bytes_of
  bytes_of-eq none h = cc
  bytes_of-eq (some b) h = ap some (ok-injective h)

  decode_base64-eq :
      (v : Value) {c : Bytes}
      → decode_base64 host v ≡ ok c
      → (t : Text) × (v ≡ str t) × (host.b64decode t ≡ some c)
  unfolding decode_base64
  decode_base64-eq (str t) h = (t, refl, bytes_of-eq (host.b64decode t) h)
  decode_base64-eq _ h = cc

  read_part-Says :
      (descriptor : Option Identity) (offset : ℕ) (chunk : Value) {part : Part}
      → read_part host descriptor offset chunk ≡ ok part
      → Says part.identity offset part.contents chunk × (part.end ≡ offset + length part.contents)
  unfolding read_part identity_of
  read_part-Says descriptor offset chunk {part} h =
      let (d, ed, h) = >>=-eq-ok (chunk_dict chunk) _ h in
      let at = λ (k : Text). chunk_dict-index chunk k ed in
      let (i, ei, h) = >>=-eq-ok (identity_of d) _ h in
      let (u, eu, ei) = >>=-eq-ok (item (text "input-id") d) _ ei in
      let (id, eid, ei) = >>=-eq-ok (canonical_uuid u) _ ei in
      let (n, en, ei) = >>=-eq-ok (item (text "bytes") d) _ ei in
      let (bytes, eb, ei) = >>=-eq-ok (int_in 1 max_input_json_bytes n) _ ei in
      let (w, ew, ei) = >>=-eq-ok (item (text "sha256") d) _ ei in
      let (sha, es, ei) = >>=-eq-ok (sha256_text w) _ ei in
      let (o, eo, h) = >>=-eq-ok (item (text "offset") d) _ h in
      let (t, h) = require-eq-ok (is_int offset o) _ h in
      let (_, h) = require-eq-ok (is_known descriptor i) _ h in
      let (v, ev, h) = >>=-eq-ok (item (text "base64") d) _ h in
      let (_, h) = require-eq-ok (is_text 0 21848 v) _ h in
      let (c, ec, h) = >>=-eq-ok (decode_base64 host v) _ h in
      let (_, h) =
        require-eq-ok (is_well_placed (length c) (offset + length c) i.bytes chunk d) _ h in
      let (b, vb, decoded) = decode_base64-eq v ec in
      let named : Identity = record { input_id = id; bytes = bytes; sha256 = sha } in
      let same : named ≡ i = ok-injective ei in
      let says : Says named offset c chunk = record {
        input_id_is = at (text "input-id") ∙ eu ∙ ap ok (canonical_uuid-eq-ok u eid).0;
        bytes_is = at (text "bytes") ∙ en ∙ ap ok (int_in-eq 1 max_input_json_bytes n eb);
        sha256_is = at (text "sha256") ∙ ew ∙ ap ok (sha256_text-eq w es);
        offset_is = at (text "offset") ∙ eo ∙ ap ok (is_int-eq offset o t);
        base64 = b;
        base64_is = at (text "base64") ∙ ev ∙ ap ok vb;
        decoded = decoded;
      } in
      subst
        (λ (p : Part).
          Says p.identity offset p.contents chunk × (p.end ≡ offset + length p.contents))
        (ok-injective h) (subst (λ (j : Identity). Says j offset c chunk) same says, refl)

  -- The rounds so far fix the identity of the input.
  abbrev Knows : Option Identity → Identity → Type 0
  Knows none identity = Unit {0}
  Knows (some d) identity = identity ≡ d

  is_known-Knows :
      (descriptor : Option Identity) (i : Identity)
      → is_known descriptor i ≡ true
      → Knows descriptor i
  unfolding is_known
  is_known-Knows none i h = tt
  is_known-Knows (some d) i h =
      let a = (list_beq_iff i.input_id d.input_id).0 (ground arith) in
      let b = (nat_beq_iff i.bytes d.bytes).0 (ground arith) in
      let c = (list_beq_iff i.sha256 d.sha256).0 (ground arith) in
      λ k. record { input_id = a k; bytes = b k; sha256 = c k }

  read_part-known :
      (descriptor : Option Identity) (offset : ℕ) (chunk : Value) {part : Part}
      → read_part host descriptor offset chunk ≡ ok part
      → Knows descriptor part.identity
  read_part-known descriptor offset chunk {part} h =
      is_known-Knows descriptor part.identity
        (read_part-IsPart host descriptor offset chunk h).known

  module _ {S : Type 0} (call : Client S) (run : Text) where
    -- From this state and offset, the client answers one call after the other with chunks that all
    -- name this input and have these parts of it, the last of which ends where the input does.
    abbrev pub Sent : Identity → List Bytes → ℕ → S → Type 0
    Sent identity [] offset s = offset ≡ identity.bytes
    Sent identity (contents ∷ rest) offset s =
        let o = call (text "simmis_worker-input") (chunk_arguments run offset) s in
        (chunk : Value) × (o.0 ≡ ok chunk)
        × Says identity offset contents chunk
        × Sent identity rest (offset + length contents) o.1

    -- What a round appends to the chunks, and all later ones.
    abbrev Read : Option Identity → List Bytes → ℕ → S → Identity × List Bytes → Type 0
    Read descriptor chunks offset s (identity, read) =
        (contents : Bytes) × (rest : List Bytes) × (read ≡ chunks ++ contents ∷ rest)
        × Knows descriptor identity
        × Sent identity (contents ∷ rest) offset s

    joined :
        (descriptor : Option Identity) (chunks : List Bytes) (offset : ℕ) (s : S) (part : Part)
        (chunk : Value) (found : Identity × List Bytes)
        → Knows descriptor part.identity
        → (call (text "simmis_worker-input") (chunk_arguments run offset) s).0 ≡ ok chunk
        → Says part.identity offset part.contents chunk
        → part.end ≡ offset + length part.contents
        → Read
            (some part.identity)
            (chunks ++ part.contents ∷ [])
            part.end
            (call (text "simmis_worker-input") (chunk_arguments run offset) s).1
            found
        → Read descriptor chunks offset s found
    joined descriptor chunks offset s part chunk (identity, read) known r says end
          (c, rest, e, same, sent) =
        let o = call (text "simmis_worker-input") (chunk_arguments run offset) s in
        (
          part.contents,
          c ∷ rest,
          e ∙ append_assoc chunks (part.contents ∷ []) (c ∷ rest),
          subst (Knows descriptor) (sym same) known,
          (
            chunk,
            r,
            subst (λ (j : Identity). Says j offset part.contents chunk) (sym same) says,
            subst (λ (n : ℕ). Sent identity (c ∷ rest) n o.1) end sent,
          ),
        )

    -- A loop that ends has read the parts that were sent.
    pub fetch_loop-Read :
        (fuel : ℕ) (descriptor : Option Identity) (chunks : List Bytes) (offset : ℕ) (s : S)
        {found : Identity × List Bytes}
        → (fetch_loop host call fuel run descriptor chunks offset s).0 ≡ ok found
        → Read descriptor chunks offset s found
    unfolding fetch_loop
    fetch_loop-Read zero descriptor chunks offset s f = cc
    fetch_loop-Read (suc fuel) descriptor chunks offset s {found} f =
        elim (Result-cases (reply.0 >>= read_part host descriptor offset)) [
          | inr (e', bad) ↦ cc (rw (bad, fetch_loop) at f)
          | inl (part, good) ↦ elim (Result-cases reply.0) [
            | inr (raised, r) ↦ cc (rw r at good)
            | inl (chunk, r) ↦
                let p = read_part-known descriptor offset chunk (rw r at good) in
                let (says, end) = read_part-Says descriptor offset chunk (rw r at good) in
                elim (Bool-cases (part.end == part.identity.bytes)) [
                  | inl whole ↦
                      subst (Read descriptor chunks offset s)
                        (ok-injective (rw (good, whole, fetch_loop) at f))
                        (
                          part.contents,
                          [],
                          refl,
                          p,
                          (
                            chunk,
                            r,
                            says,
                            sym end ∙ (nat_beq_iff part.end part.identity.bytes).0 whole,
                          ),
                        )
                  | inr more ↦ joined descriptor chunks offset s part chunk found p r says end (
                      fetch_loop-Read fuel (some part.identity) (chunks ++ part.contents ∷ [])
                        part.end reply.1 (rw (good, more, fetch_loop) at f))
                ]
          ]
        ]
      where
        reply : Result Value × S
        reply = call (text "simmis_worker-input") (chunk_arguments run offset) s
