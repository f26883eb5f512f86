-- ===== src/Journal/Records/Laws.antt =====
-- What a record that was read says of the file it was read from.
use simmis.Prelude.{
  ◌≢◌, subst, ◌≡◌, refl, ap, ◌∙◌, leb, length, Option, none, some, ◌==◌, list_eq, nat_eq,
  list_beq_iff, arith, Result, ok, err, >>=-eq-ok, require-eq-ok, ok-injective,
}
use simmis.Journal.Records.{
  file_name, read_record, read_file, read_found, encode, optional, parse, is_obj, max_record_bytes,
}
use simmis.Files.{File, Directory, regular_info}
use simmis.Host.{Host}
use simmis.Value.{Text, Value, lookup}
use simmis.Value.Decode.{decode}

optional-eq-some : (r : Result Value) {w : Value} → optional r ≡ ok (some w) → r ≡ ok w
unfolding optional
optional-eq-some (ok v) h = ground arith
optional-eq-some (err e) h = cc

optional-not-none : (r : Result Value) → optional r ≢ ok none
unfolding optional
optional-not-none (ok v) h = cc
optional-not-none (err e) h = cc

module _ (host : Host) where
  -- A record is the canonical encoding of its value.
  pub read_file-eq-ok :
      (f : File) {w : Value} → read_file host f ≡ ok w → encode host w ≡ ok f.contents
  unfolding read_file
  read_file-eq-ok f {w} h =
      let (_, _, h) = >>=-eq-ok (regular_info f) _ h in
      let (_, h) = require-eq-ok (leb (length f.contents) max_record_bytes) _ h in
      let (raw, _, h) = >>=-eq-ok (parse host f.contents) _ h in
      let (value, _, h) = >>=-eq-ok (decode raw) _ h in
      let (_, h) = require-eq-ok (is_obj value) _ h in
      let (canonical, e, h) = >>=-eq-ok (encode host value) _ h in
      let (same, h) = require-eq-ok (canonical == f.contents) _ h in
      subst (λ v. encode host v ≡ ok f.contents) (ok-injective h)
        (e ∙ ap ok ((list_beq_iff canonical f.contents).0 same))

  read_found-eq-some :
      (o : Option File) {w : Value}
      → read_found host o ≡ ok (some w)
      → (f : File) × (o ≡ some f) × (read_file host f ≡ ok w)
  unfolding read_found
  read_found-eq-some none h = cc
  read_found-eq-some (some f) h = (f, refl, optional-eq-some (read_file host f) h)

  read_found-eq-none : (o : Option File) → read_found host o ≡ ok none → o ≡ none
  unfolding read_found
  read_found-eq-none none h = refl
  read_found-eq-none (some f) h = elim (optional-not-none (read_file host f) h) [ ]

  pub read_record-eq-some :
      (phase : Text) (d : Directory) {w : Value}
      → read_record host phase d ≡ ok (some w)
      → (f : File) × (lookup (file_name phase) d ≡ some f) × (read_file host f ≡ ok w)
  unfolding read_record
  read_record-eq-some phase d h = read_found-eq-some (lookup (file_name phase) d) h

  pub read_record-eq-none :
      (phase : Text) (d : Directory)
      → read_record host phase d ≡ ok none
      → lookup (file_name phase) d ≡ none
  unfolding read_record
  read_record-eq-none phase d h = read_found-eq-none (lookup (file_name phase) d) h
