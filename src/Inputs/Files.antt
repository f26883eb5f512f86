-- ===== src/Inputs/Files.antt =====
-- What `file_bytes` and the loop over the files accept.
use simmis.Prelude.{
  list_beq, ℕ, ◌≤◌, ◌≡◌, refl, ap, sym, ◌∙◌, Bool, true, some, arith, leb→le, ◌==◌, list_eq, nat_eq,
  list_beq_iff, contains, length, ok, require-eq-ok, >>=-eq-ok, ok-injective, pos, Refuses,
  Refuses-require, Refuses-ok, Refuses-bind, and-eq-true,
}
use simmis.Inputs.{
  leb, is_declared, list_beq, Declared, declared, is_bounded, file_fields, file_bytes,
  decode_base64, max_file_bytes,
}
use simmis.Host.{Host}
use simmis.Value.{
  Text, Bytes, text, Value, str, int, closed, item, index, is_int, is_int_in, is_str,
}
use simmis.Value.Laws.{closed-index, Refuses-closed, Refuses-item}

is_int-eq : (n : ℕ) (v : Value) → is_int n v ≡ true → v ≡ int (pos n)
unfolding is_int
is_int-eq n (int (pos m)) h = ap (λ (k : ℕ). int (pos k)) (ground arith)
is_int-eq n _ h = cc

is_str-eq :
    (test : Text → Bool) (v : Value)
    → is_str test v ≡ true
    → (s : Text) × (v ≡ str s) × (test s ≡ true)
unfolding is_str
is_str-eq test (str s) h = (s, refl, h)
is_str-eq test _ h = cc

is_bounded-le :
    (d : Declared) (n : ℕ) → is_bounded d ≡ true → d.bytes ≡ int (pos n) → n ≤ max_file_bytes
unfolding is_bounded is_int_in
is_bounded-le d n h e =
    let within : is_int_in 0 max_file_bytes d.bytes ≡ true = ground arith in
    leb→le n max_file_bytes (and-eq-true (leb 0 n) (leb n max_file_bytes) (rw e at within)).1

Refuses-declared : (file : Value) → Refuses (declared file)
unfolding declared contains list_beq
Refuses-declared file =
    Refuses-bind (closed file file_fields) _ (Refuses-closed file file_fields) λ f c.
      Refuses-bind (item (text "base64") f) _ (Refuses-item file file_fields (text "base64") c refl)
        λ b _.
          Refuses-bind (item (text "bytes") f) _
            (Refuses-item file file_fields (text "bytes") c refl)
            λ n _.
              Refuses-bind (item (text "sha256") f) _
                (Refuses-item file file_fields (text "sha256") c refl)
                λ s _.
                  Refuses-bind (item (text "mode") f) _
                    (Refuses-item file file_fields (text "mode") c refl)
                    λ m _. Refuses-ok (record { base64 = b; bytes = n; sha256 = s; mode = m })

module _ (host : Host) where
  -- A file record whose declared size and digest are those of the bytes it carries.
  pub record IsIntact (file : Value) (contents : Bytes) : Type 0 where
    pub small : length contents ≤ max_file_bytes
    pub size : index file (text "bytes") ≡ ok (int (pos (length contents)))
    pub digest : index file (text "sha256") ≡ ok (str (host.sha256 contents))
    pub carried :
        (b : Text) × (index file (text "base64") ≡ ok (str b)) × (host.b64decode b ≡ some contents)

  decode_base64-eq-ok :
      (v : Value) {contents : Bytes}
      → decode_base64 host v ≡ ok contents
      → (b : Text) × (v ≡ str b) × (host.b64decode b ≡ some contents)
  unfolding decode_base64
  decode_base64-eq-ok (str b) h = (b, refl, ground arith)
  decode_base64-eq-ok _ h = cc

  declared-eq-ok :
      (file : Value) {d : Declared}
      → declared file ≡ ok d
      → (index file (text "base64") ≡ ok d.base64)
        × (index file (text "bytes") ≡ ok d.bytes)
        × (index file (text "sha256") ≡ ok d.sha256)
        × (index file (text "mode") ≡ ok d.mode)
  unfolding declared
  declared-eq-ok file {d} h =
      let (f, c, h) = >>=-eq-ok (closed file file_fields) _ h in
      let (b, eb, h) = >>=-eq-ok (item (text "base64") f) _ h in
      let (n, en, h) = >>=-eq-ok (item (text "bytes") f) _ h in
      let (s, es, h) = >>=-eq-ok (item (text "sha256") f) _ h in
      let (m, em, h) = >>=-eq-ok (item (text "mode") f) _ h in
      let e = ok-injective h in
      (
        closed-index file file_fields (text "base64") c ∙ eb ∙ ap (λ (d : Declared). ok d.base64) e,
        closed-index file file_fields (text "bytes") c ∙ en ∙ ap (λ (d : Declared). ok d.bytes) e,
        closed-index file file_fields (text "sha256") c ∙ es ∙ ap (λ (d : Declared). ok d.sha256) e,
        closed-index file file_fields (text "mode") c ∙ em ∙ ap (λ (d : Declared). ok d.mode) e,
      )

  is_declared-eq :
      (d : Declared) (contents : Bytes)
      → is_declared host d contents ≡ true
      → (d.bytes ≡ int (pos (length contents))) × (d.sha256 ≡ str (host.sha256 contents))
  unfolding is_declared
  is_declared-eq d contents h =
      let (size, digest) =
        and-eq-true (is_int (length contents) d.bytes)
          (is_str (λ s. host.sha256 contents == s) d.sha256) h in
      let (s, e, m) = is_str-eq (λ s. host.sha256 contents == s) d.sha256 digest in
      (
        is_int-eq (length contents) d.bytes size,
        e ∙ ap str (sym ((list_beq_iff (host.sha256 contents) s).0 m)),
      )

  pub file_bytes-IsIntact :
      (file : Value) {contents : Bytes}
      → file_bytes host file ≡ ok contents
      → IsIntact file contents
  unfolding file_bytes
  file_bytes-IsIntact file {contents} h =
      let (d, ed, h) = >>=-eq-ok (declared file) _ h in
      let (bounded, h) = require-eq-ok (is_bounded d) _ h in
      let (found, eb, h) = >>=-eq-ok (decode_base64 host d.base64) _ h in
      let (t, h) = require-eq-ok (is_declared host d found) (ok found) h in
      let same : found ≡ contents = ok-injective h in
      let (base64, bytes, sha256, _) = declared-eq-ok file ed in
      let (size, digest) = is_declared-eq d found t in
      record {
        small = rw (← same) (is_bounded-le d (length found) bounded size);
        size = rw (← same) (bytes ∙ ap ok size);
        digest = rw (← same) (sha256 ∙ ap ok digest);
        carried =
            let (b, eq, decoded) = decode_base64-eq-ok d.base64 eb in
            (b, base64 ∙ ap ok eq, decoded ∙ ap some same);
      }

  pub Refuses-decode_base64 : (v : Value) → Refuses (decode_base64 host v)
  unfolding decode_base64
  Refuses-decode_base64 v = record { only = λ e h. ground arith }

  -- Whatever is decoded as a file, a refusal is a ValueError.
  pub Refuses-file_bytes : (file : Value) → Refuses (file_bytes host file)
  unfolding file_bytes
  Refuses-file_bytes file = Refuses-bind (declared file) _ (Refuses-declared file) λ d _.
      Refuses-require (is_bounded d) _ λ _.
        Refuses-bind (decode_base64 host d.base64) _ (Refuses-decode_base64 d.base64)
          λ c _. Refuses-require (is_declared host d c) (ok c) λ _. Refuses-ok c
