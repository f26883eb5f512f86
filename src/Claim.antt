-- ===== src/Claim.antt =====
-- scripts/worker_claim.py: the private ticket of one claim, written before the claim is sent.
pub mod Prepared
pub mod Kept
use simmis.Prelude.{
  ℕ, ◌+◌, Bool, true, false, ◌&&◌, ◌||◌, List, [], ◌∷◌, ◌++◌, Option, none, some, leb, ◌==◌,
  list_eq, nat_eq, length, pos, Result, ok, err, ◌>>=◌, ◌>>◌, require, value_error, file_not_found,
  file_exists,
}
use simmis.Files.{File, Directory, create, unlink, regular_info}
use simmis.Host.{Host}
use simmis.Inputs.{canonical_uuid}
use simmis.Journal.Records.{parse}
use simmis.Value.{
  Text, Bytes, text, Value, str, int, Dict, dict, closed, item, index, is_int, is_str, is_run,
  lookup,
}
use simmis.Value.Decode.{decode}

-- MAX_TICKET_BYTES
abbrev pub max_ticket_bytes : ℕ
max_ticket_bytes = 2048

abbrev pub ticket_fields : List Text
ticket_fields = text "version" ∷ text "worker" ∷ text "run" ∷ text "nonce" ∷ text "proof" ∷ []

-- [A-Za-z0-9_-]
unfoldable pub is_proof_char : ℕ → Bool
is_proof_char c =
    leb b'A' c && leb c b'Z'
    || leb b'a' c && leb c b'z'
    || leb b'0' c && leb c b'9'
    || c == b'_'
    || c == b'-'

-- `_validate`
unfoldable pub validate : Value → Result Value
unfolding closed item is_int is_str is_run is_proof_char canonical_uuid
validate ticket = do
  t ← closed ticket ticket_fields
  version ← item (text "version") t
  require (is_int 1 version)
  proof ← item (text "proof") t
  require (is_str (is_run is_proof_char 43) proof)
  worker ← item (text "worker") t
  _ ← canonical_uuid worker
  run ← item (text "run") t
  _ ← canonical_uuid run
  nonce ← item (text "nonce") t
  _ ← canonical_uuid nonce
  ok ticket

-- A field that is known to be a str.
unfoldable pub text_at : Value → Text → Result Text
unfolding index
text_at v k = index v k >>= λ x. elim x [ Value.str s ↦ ok s | _ ↦ err value_error ]

-- The credential that a claim proposes.
unfoldable pub lease_token : Value → Result Text
unfolding validate text_at
lease_token ticket = do
  _ ← validate ticket
  run ← text_at ticket (text "run")
  nonce ← text_at ticket (text "nonce")
  proof ← text_at ticket (text "proof")
  ok (text "simmis-lease." ++ run ++ text "." ++ nonce ++ text "." ++ proof)

-- A new ticket; `nonce` is str(uuid.uuid4()) and `proof` is secrets.token_urlsafe(32).
unfoldable pub new_ticket : Text → Text → Text → Text → Value
new_ticket worker run nonce proof = dict (
    (text "version", int (pos 1))
    ∷ (text "worker", str worker)
    ∷ (text "run", str run)
    ∷ (text "nonce", str nonce)
    ∷ (text "proof", str proof)
    ∷ [])

-- A staging file's name; `hex` is uuid.uuid4().hex.
unfoldable pub staged_name : Text → Text
staged_name hex = text ".claim-" ++ hex

-- `if ticket["worker"] != worker or ticket["run"] != run: raise`
unfoldable pub check_work : Text → Text → Value → Result Value
unfolding index is_str
check_work worker run ticket = do
  w ← index ticket (text "worker")
  require (is_str (λ s. s == worker) w)
  r ← index ticket (text "run")
  require (is_str (λ s. s == run) r)
  ok ticket

-- canonical_uuid(worker) and canonical_uuid(run)
unfoldable pub identities : Value → Value → Result (Text × Text)
unfolding canonical_uuid
identities worker run = do w ← canonical_uuid worker; r ← canonical_uuid run; ok (w, r)

-- After the link: the ticket is compared, and the staging file removed on every path.
abbrev pub settle : Text → Text → Text → Result Value × Directory → Result Value × Directory
settle hex worker run (r, d) = ((r >>= check_work worker run), unlink (staged_name hex) d)

module _ (host : Host) where
  -- The parser has no parse_constant here: it would make a float of a constant, which no field of a
  -- ticket may be, so that this is a ValueError as well.
  unfoldable pub load_file : File → Result Value
  unfolding regular_info parse decode validate
  load_file f = do
    regular_info f
    require (leb (length f.contents) max_ticket_bytes)
    raw ← parse host f.contents
    ticket ← decode raw
    validate ticket

  unfoldable pub load_found : Option File → Result Value
  unfolding load_file
  load_found none = err file_not_found
  load_found (some f) = load_file f

  -- `_load`
  unfoldable pub load : Text → Directory → Result Value
  unfolding load_found lookup
  load name d = load_found (lookup name d)

  -- json.dumps(ticket, sort_keys=True) is ASCII, and its bytes are its characters.
  abbrev pub ticket_file : Value → File
  ticket_file ticket = record { private_regular = true; contents = host.dumps_sorted ticket }

  -- os.link, over the file that the staging name has and the one that the ticket's name has: it gives
  -- the staged file, whatever it has become, the name, or the loser adopts the winner's ticket.
  unfoldable pub link_over :
      Option File → Option File → Text → Value → Directory → Result Value × Directory
  unfolding create load
  link_over none target name ticket d = (err file_not_found, d)
  link_over (some staged) none name ticket d = (ok ticket, create name staged d)
  link_over (some staged) (some f) name ticket d = (load name d, d)

  -- A missing ticket is staged and linked; the first argument is a file that has the staging name.
  unfoldable pub stage_over :
      Option File
      → (Directory → Directory)
      → Text
      → Text
      → Text
      → Text
      → Value
      → Directory
      → Result Value × Directory
  unfolding staged_name create unlink link_over lookup check_work
  stage_over (some f) others hex name worker run ticket d =
      (err file_exists, unlink (staged_name hex) d)
  stage_over none others hex name worker run ticket d =
      let staged = others (create (staged_name hex) (ticket_file ticket) d) in
      settle hex worker run
        (link_over (lookup (staged_name hex) staged) (lookup name staged) name ticket staged)

  -- What follows on the first look at the ticket's file.
  unfoldable pub prepare_over :
      Option File
      → (Directory → Directory)
      → Text
      → Text
      → Text
      → Text
      → Value
      → Directory
      → Result Value × Directory
  unfolding load_file check_work stage_over lookup staged_name
  prepare_over (some f) others hex name worker run ticket d =
      ((load_file f >>= check_work worker run), d)
  prepare_over none others hex name worker run ticket d =
      stage_over (lookup (staged_name hex) d) others hex name worker run ticket d

  unfoldable pub prepare_for :
      Result (Text × Text)
      → (Directory → Directory)
      → Text
      → Text
      → Text
      → Text
      → Directory
      → Result Value × Directory
  unfolding prepare_over lookup new_ticket
  prepare_for (err e) others hex nonce proof name d = (err e, d)
  prepare_for (ok (worker, run)) others hex nonce proof name d =
      prepare_over (lookup name d) others hex name worker run (new_ticket worker run nonce proof) d

  -- `prepare`, in the directory of the path; `others` is what other processes do to it between this
  -- one's staging and its link.
  unfoldable pub prepare :
      (Directory → Directory)
      → Text
      → Text
      → Text
      → Text
      → Value
      → Value
      → Directory
      → Result Value × Directory
  unfolding identities prepare_for
  prepare others hex nonce proof name worker run d =
      prepare_for (identities worker run) others hex nonce proof name d
