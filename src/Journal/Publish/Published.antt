-- ===== src/Journal/Publish/Published.antt =====
-- What a successful publication leaves in the directory.
use simmis.Prelude.{
  ◌≡◌, refl, sym, ap, subst, ◌∙◌, true, Option, none, some, ◌==◌, list_eq, nat_eq, list_beq_iff,
  ==_refl, Result, ok, err, ◌>>=◌, ◌>>◌, >>=-eq-ok, require-eq-ok, require-eq-ok_only, require,
  ok-injective, leb, length,
}
use simmis.Files.{File, Directory, create}
use simmis.Files.Laws.{Leaves, lookup-left, lookup-create, lookup-unlink_other}
use simmis.Host.{Host}
use simmis.Journal.Records.{Phase, phase_name, file_name, read_record, encode, max_record_bytes}
use simmis.Journal.Records.Laws.{read_record-eq-some, read_file-eq-ok}
use simmis.Journal.Publish.{
  staged_name, agrees, reload, link_over, link_or_adopt, stage_over, publish_over, publish_encoded,
  publish, bounded, adopt, settle,
}
use simmis.Journal.Publish.Immutable.{record-not-staged}
use simmis.Value.{Text, Bytes, Value, lookup}

-- The record's file holds the encoding.
abbrev pub Holds : Text → Bytes → Directory → Type 0
Holds name encoded d = (f : File) × (lookup name d ≡ some f) × (f.contents ≡ encoded)

module _ (host : Host) where
  -- A record that was read and agrees with an encoding is that encoding.
  agreed :
      (phase : Text) (encoded : Bytes) (d : Directory) (w : Value) (k : Result Value) {v : Value}
      → read_record host phase d ≡ ok (some w)
      → (agrees host encoded (some w) >> k) ≡ ok v
      → Holds (file_name phase) encoded d × (k ≡ ok v)
  unfolding agrees
  agreed phase encoded d w k r h =
      let (f, there, read) = read_record-eq-some host phase d r in
      let (_, h, after) = >>=-eq-ok (agrees host encoded (some w)) (λ _. k) h in
      let (b, e, h) = >>=-eq-ok (encode host w) (λ b. require (b == encoded)) h in
      let same = require-eq-ok_only (b == encoded) h in
      (
        (
          f,
          there,
          ok-injective (sym (read_file-eq-ok host f read) ∙ e) ∙ (list_beq_iff b encoded).0 same,
        ),
        after,
      )

  adopted :
      (r : Result (Option Value)) (phase : Text) (encoded : Bytes) (d : Directory) {v : Value}
      → read_record host phase d ≡ r
      → ((r >>= adopt host) >>= λ e. agrees host encoded e >> reload host encoded) ≡ ok v
      → Holds (file_name phase) encoded d × (reload host encoded ≡ ok v)
  unfolding adopt
  adopted (err e) phase encoded d read h = cc
  adopted (ok none) phase encoded d read h = cc
  adopted (ok (some w)) phase encoded d read h =
      agreed phase encoded d w (reload host encoded) read h

  linked :
      (staged : File) (o : Option File) (phase nonce : Text) (encoded : Bytes) (d : Directory)
      {v : Value}
      → staged.contents ≡ encoded
      → lookup (file_name phase) d ≡ o
      → (settle host nonce encoded (link_over host (some staged) o phase d)).0 ≡ ok v
      → Holds (file_name phase) encoded (link_over host (some staged) o phase d).1
        × (reload host encoded ≡ ok v)
  unfolding link_over agrees
  linked made none phase nonce encoded d whole free h = (
    (
      made,
      rw (lookup-create (file_name phase) (file_name phase) made d, ==_refl (file_name phase)) refl,
      whole,
    ),
    h,
  )
  linked made (some f) phase nonce encoded d whole taken h =
      adopted (read_record host phase d) phase encoded d refl h

  staged :
      (o : Option File) (others : Directory → Directory) (nonce : Text) (p : Phase)
      (encoded : Bytes) (d : Directory) {v : Value}
      → Leaves others (staged_name nonce)
      → (stage_over host o others nonce (phase_name p) encoded d).0 ≡ ok v
      → Holds
          (file_name (phase_name p))
          encoded
          (stage_over host o others nonce (phase_name p) encoded d).1
        × (reload host encoded ≡ ok v)
  unfolding stage_over link_or_adopt
  staged none others nonce p encoded d {v} left h =
      let own : File = record { private_regular = true; contents = encoded } in
      let made = others (create (staged_name nonce) own d) in
      let kept = lookup-left others (staged_name nonce) own d left in
      let target = lookup (file_name (phase_name p)) made in
      let ((f, there, same), e) =
        subst
          (λ (x : Option File).
            (settle host nonce encoded (link_over host x target (phase_name p) made)).0 ≡ ok v
            → Holds (file_name (phase_name p)) encoded
                (link_over host x target (phase_name p) made).1
              × (reload host encoded ≡ ok v))
          (sym kept) (linked own target (phase_name p) nonce encoded made refl refl) h in
      (
        (
          f,
          lookup-unlink_other (staged_name nonce) (file_name (phase_name p)) f
              (link_or_adopt host nonce (phase_name p) made).1 (record-not-staged p nonce) there,
          same,
        ),
        e,
      )
  staged (some f) others nonce p encoded d left h = cc

  published :
      (r : Result (Option Value)) (others : Directory → Directory) (nonce : Text) (p : Phase)
      (encoded : Bytes) (d : Directory) {v : Value}
      → Leaves others (staged_name nonce)
      → read_record host (phase_name p) d ≡ r
      → (publish_over host r others nonce (phase_name p) encoded d).0 ≡ ok v
      → Holds
          (file_name (phase_name p))
          encoded
          (publish_over host r others nonce (phase_name p) encoded d).1
        × (reload host encoded ≡ ok v)
  unfolding publish_over
  published (err e) others nonce p encoded d left read h = cc
  published (ok none) others nonce p encoded d left read h =
      staged (lookup (staged_name nonce) d) others nonce p encoded d left h
  published (ok (some w)) others nonce p encoded d left read h =
      agreed (phase_name p) encoded d w (reload host encoded) read h

  -- What a successful publication of `value` leaves: the phase's file with the canonical encoding
  -- of the value, within the bound of a record, which reads back as the value returned.
  pub record IsPublished (p : Phase) (value v : Value) (d : Directory) : Type 0 where
    pub encoded : Bytes
    pub encodes : encode host value ≡ ok encoded
    pub bound : leb (length encoded) max_record_bytes ≡ true
    pub holds : Holds (file_name (phase_name p)) encoded d
    pub reads_back : reload host encoded ≡ ok v

  publish_encoded-IsPublished :
      (r : Result Bytes) (others : Directory → Directory) (nonce : Text) (p : Phase) (value : Value)
      (d : Directory) {v : Value}
      → Leaves others (staged_name nonce)
      → bounded host value ≡ r
      → (publish_encoded host r others nonce (phase_name p) d).0 ≡ ok v
      → IsPublished p value v (publish_encoded host r others nonce (phase_name p) d).1
  unfolding publish_encoded bounded
  publish_encoded-IsPublished (err e) others nonce p value d left b h = cc
  publish_encoded-IsPublished (ok encoded) others nonce p value d left b h =
      let (a, e, b) = >>=-eq-ok (encode host value) _ b in
      let (t, b) = require-eq-ok (leb (length a) max_record_bytes) _ b in
      let same = ok-injective b in
      let (there, back) =
        published (read_record host (phase_name p) d) others nonce p encoded d left refl h in
      record {
        encoded = encoded;
        encodes = e ∙ ap ok same;
        bound = rw same at t;
        holds = there;
        reads_back = back;
      }

  -- Where a publication succeeds, whatever the other processes did to the directory before the link
  -- but for the staging file, which they leave alone, and whether the record was created, adopted from a concurrent winner or there already:
  -- the phase's file afterwards holds exactly the canonical encoding of the value published, it is
  -- within the bound, and the value returned is what these bytes decode to.
  pub publish-IsPublished :
      (others : Directory → Directory) (nonce : Text) (p : Phase) (value : Value) (d : Directory)
      {v : Value}
      → Leaves others (staged_name nonce)
      → (publish host others nonce (phase_name p) value d).0 ≡ ok v
      → IsPublished p value v (publish host others nonce (phase_name p) value d).1
  unfolding publish
  publish-IsPublished others nonce p value d left h =
      publish_encoded-IsPublished (bounded host value) others nonce p value d left refl h
