-- ===== src/Journal/Publish.antt =====
-- `_publish`: the record of one phase, published beside other processes.
pub mod Immutable
pub mod Published
use simmis.Prelude.{
  ℕ, ◌≡◌, Bool, true, false, List, [], ◌∷◌, ◌++◌, Option, none, some, leb, ◌==◌, list_eq, nat_eq,
  length, Result, ok, err, ◌>>=◌, ◌>>◌, require, value_error, file_exists, file_not_found,
  if◌then◌else◌,
}
use simmis.Files.{File, Directory, create, unlink}
use simmis.Host.{Host}
use simmis.Journal.Records.{
  Phase, phase_name, max_record_bytes, file_name, encode, read_record, parse,
}
use simmis.Value.{Text, Bytes, text, Value, lookup}
use simmis.Value.Decode.{decode}

-- A staging file's name; `nonce` is uuid.uuid4().hex.
unfoldable pub staged_name : Text → Text
staged_name nonce = text ".phase-" ++ nonce

module _ (host : Host) where
  -- `if existing is not None and encode(existing) != encoded: raise`
  unfoldable pub agrees : Bytes → Option Value → Result (Unit {0})
  unfolding encode
  agrees encoded none = ok tt
  agrees encoded (some existing) = do b ← encode host existing; require (b == encoded)

  -- json.loads(encoded)
  unfoldable pub reload : Bytes → Result Value
  reload encoded = elim (host.loads_plain encoded) [ none ↦ err value_error | some v ↦ ok v ]

  -- The end of `_publish` where the record was there at the start: nothing has been staged.
  abbrev finish : Bytes → Option Value → Directory → Result Value × Directory
  finish encoded existing d = ((agrees encoded existing >> reload encoded), d)

  -- What the loser of a race adopts.
  unfoldable pub adopt : Option Value → Result (Option Value)
  adopt none = err value_error
  adopt (some v) = ok (some v)

  -- os.link, over the file that the staging name has and the one that the record's name has: it gives
  -- the staged file, whatever it has become, the record's name, and never replaces a file.
  unfoldable pub link_over :
      Option File → Option File → Text → Directory → Result (Option Value) × Directory
  unfolding file_name read_record create adopt
  link_over none target phase d = (err file_not_found, d)
  link_over (some staged) none phase d = (ok none, create (file_name phase) staged d)
  link_over (some staged) (some f) phase d = ((read_record host phase d >>= adopt), d)

  unfoldable pub link_or_adopt : Text → Text → Directory → Result (Option Value) × Directory
  unfolding link_over file_name staged_name lookup
  link_or_adopt nonce phase d =
      link_over (lookup (staged_name nonce) d) (lookup (file_name phase) d) phase d

  -- After the link: the record is compared, and the staging file removed on every path.
  abbrev pub settle : Text → Bytes → Result (Option Value) × Directory → Result Value × Directory
  settle nonce encoded (existing, d) =
      ((existing >>= λ e. agrees encoded e >> reload encoded), unlink (staged_name nonce) d)

  -- `others` is what other processes do to the directory between this one's staging and its link;
  -- the first argument is a file that has the staging name already.
  unfoldable pub stage_over :
      Option File
      → (Directory → Directory)
      → Text
      → Text
      → Bytes
      → Directory
      → Result Value × Directory
  unfolding staged_name create unlink link_or_adopt agrees reload
  stage_over (some f) others nonce phase encoded d = (err file_exists, unlink (staged_name nonce) d)
  stage_over none others nonce phase encoded d = settle nonce encoded (
      link_or_adopt nonce phase (
        others
          (create (staged_name nonce) (record { private_regular = true; contents = encoded }) d)))

  -- What follows on the first reading of the record.
  unfoldable pub publish_over :
      Result (Option Value)
      → (Directory → Directory)
      → Text
      → Text
      → Bytes
      → Directory
      → Result Value × Directory
  unfolding stage_over lookup staged_name
  publish_over (err e) others nonce phase encoded d = (err e, d)
  publish_over (ok none) others nonce phase encoded d =
      stage_over (lookup (staged_name nonce) d) others nonce phase encoded d
  publish_over (ok (some existing)) others nonce phase encoded d = finish encoded (some existing) d

  unfoldable pub bounded : Value → Result Bytes
  unfolding encode
  bounded value = do
    encoded ← encode host value
    require (leb (length encoded) max_record_bytes)
    ok encoded

  unfoldable pub publish_encoded :
      Result Bytes → (Directory → Directory) → Text → Text → Directory → Result Value × Directory
  unfolding publish_over read_record
  publish_encoded (err e) others nonce phase d = (err e, d)
  publish_encoded (ok encoded) others nonce phase d =
      publish_over (read_record host phase d) others nonce phase encoded d

  -- `_publish`
  unfoldable pub publish :
      (Directory → Directory) → Text → Text → Value → Directory → Result Value × Directory
  unfolding bounded publish_encoded
  publish others nonce phase value d = publish_encoded (bounded value) others nonce phase d
