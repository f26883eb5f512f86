-- ===== src/Journal/Publish/Immutable.antt =====
-- The records that `_publish` finds, during and after a publication.
use simmis.Prelude.{
  ◌≡◌, refl, true, false, Option, none, some, ◌==◌, list_eq, nat_eq, Result, ok, err, list_beq,
}
use simmis.Files.{File, Directory, create}
use simmis.Files.Laws.{KeepsFile, lookup-create_free, lookup-unlink_other}
use simmis.Host.{Host}
use simmis.Journal.Records.{
  Phase, launch, admitted, stopped, acknowledged, phase_name, file_name, read_record,
}
use simmis.Journal.Publish.{
  staged_name, link_over, link_or_adopt, stage_over, publish_over, publish_encoded, publish,
  bounded,
}
use simmis.Value.{Text, Bytes, Value, lookup}

-- No record is named like a staging file.
pub record-not-staged :
    (p : Phase) (nonce : Text) → (file_name (phase_name p) == staged_name nonce) ≡ false
unfolding file_name staged_name list_beq
record-not-staged launch nonce = refl
record-not-staged admitted nonce = refl
record-not-staged stopped nonce = refl
record-not-staged acknowledged nonce = refl

abbrev private : Bytes → File
private encoded = record { private_regular = true; contents = encoded }

module _ (host : Host) where
  link_over-keeps :
      (staged o : Option File) (phase k : Text) (d : Directory) (f : File)
      → lookup (file_name phase) d ≡ o
      → lookup k d ≡ some f
      → lookup k (link_over host staged o phase d).1 ≡ some f
  unfolding link_over
  link_over-keeps none _ phase k d f free there = there
  link_over-keeps (some g) none phase k d f free there =
      lookup-create_free (file_name phase) k f g d free there
  link_over-keeps (some g) (some h) phase k d f taken there = there

  stage_over-keeps :
      (o : Option File) (others : Directory → Directory) (nonce phase : Text) (encoded : Bytes)
      (p : Phase) (d : Directory) (f : File)
      → KeepsFile others (file_name (phase_name p)) f
      → lookup (staged_name nonce) d ≡ o
      → lookup (file_name (phase_name p)) d ≡ some f
      → lookup (file_name (phase_name p)) (stage_over host o others nonce phase encoded d).1
        ≡ some f
  unfolding stage_over link_or_adopt
  stage_over-keeps none others nonce phase encoded p d f keeps free there =
      let k = file_name (phase_name p) in
      let created = create (staged_name nonce) (private encoded) d in
      lookup-unlink_other (staged_name nonce) k f
        (link_or_adopt host nonce phase (others created)).1 (record-not-staged p nonce)
        (link_over-keeps (lookup (staged_name nonce) (others created))
          (lookup (file_name phase) (others created)) phase k (others created) f refl
          (keeps.kept created
            (lookup-create_free (staged_name nonce) k f (private encoded) d free there)))
  stage_over-keeps (some g) others nonce phase encoded p d f keeps taken there =
      lookup-unlink_other (staged_name nonce) (file_name (phase_name p)) f d
        (record-not-staged p nonce) there

  publish_over-keeps :
      (r : Result (Option Value)) (others : Directory → Directory) (nonce phase : Text)
      (encoded : Bytes) (p : Phase) (d : Directory) (f : File)
      → KeepsFile others (file_name (phase_name p)) f
      → lookup (file_name (phase_name p)) d ≡ some f
      → lookup (file_name (phase_name p)) (publish_over host r others nonce phase encoded d).1
        ≡ some f
  unfolding publish_over
  publish_over-keeps (err e) others nonce phase encoded p d f keeps there = there
  publish_over-keeps (ok none) others nonce phase encoded p d f keeps there =
      stage_over-keeps (lookup (staged_name nonce) d) others nonce phase encoded p d f keeps refl
        there
  publish_over-keeps (ok (some v)) others nonce phase encoded p d f keeps there = there

  publish_encoded-keeps :
      (r : Result Bytes) (others : Directory → Directory) (nonce phase : Text) (p : Phase)
      (d : Directory) (f : File)
      → KeepsFile others (file_name (phase_name p)) f
      → lookup (file_name (phase_name p)) d ≡ some f
      → lookup (file_name (phase_name p)) (publish_encoded host r others nonce phase d).1 ≡ some f
  unfolding publish_encoded
  publish_encoded-keeps (err e) others nonce phase p d f keeps there = there
  publish_encoded-keeps (ok encoded) others nonce phase p d f keeps there =
      publish_over-keeps (read_record host phase d) others nonce phase encoded p d f keeps there

  -- A record of any phase that is there before a publication is the same file after it, whatever
  -- the phase and the value published, on every path, errors included, as long as the other
  -- processes keep it.
  pub publish-keeps :
      (others : Directory → Directory) (nonce phase : Text) (value : Value) (p : Phase)
      (d : Directory) (f : File)
      → KeepsFile others (file_name (phase_name p)) f
      → lookup (file_name (phase_name p)) d ≡ some f
      → lookup (file_name (phase_name p)) (publish host others nonce phase value d).1 ≡ some f
  unfolding publish
  publish-keeps others nonce phase value p d f keeps there =
      publish_encoded-keeps (bounded host value) others nonce phase p d f keeps there
