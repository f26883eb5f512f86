-- ===== src/Tests/Claim.antt =====
-- Runs and instances for worker_claim.py.
use simmis.Prelude.{
  List, none, list_eq, nat_eq, ◌==◌, ◌≡◌, refl, true, false, some, [], ◌∷◌, ok, err, value_error,
  list_beq,
}
use simmis.Journal.Unresolved.{RunDirectory, unresolved, IsInspected, unresolved-IsInspected}
use simmis.Journal.Prepare.{IsIntent, prepare-IsIntent}
use simmis.Journal.Publish.Published.{IsPublished}
use simmis.Journal.Records.{launch}
use simmis.Tests.Runs.{run_host, launch_record}
use simmis.Tests.Sample.{frozen, config, raw_of, string, input_id}
use simmis.Paths.{is_refused, join}
use simmis.Value.{lookup, index, Text, text, Value}
use simmis.Files.{Directory, File}
use simmis.Host.{Host}
use simmis.Claim.{prepare, new_ticket, staged_name}
use simmis.Claim.Kept.{prepare-keeps}
use simmis.Claim.Prepared.{IsPrepared, prepare-IsPrepared}
use simmis.Files.Laws.{Leaves, KeepsFile}
use simmis.Journal.Prepare
use simmis.Journal.Publish
use simmis.Tests.Sample

abbrev proof : Text
proof = text "abcdefghijklmnopqrstuvwxyzABCDEFGHIJKLMNO_-"

abbrev ticket : Value
ticket = new_ticket (text input_id) (text input_id) (text input_id) proof

abbrev claim_host : Host
claim_host = record Sample.host { loads = λ b. some (raw_of ticket) }

-- Another controller has linked its ticket first.
abbrev winner : Directory → Directory
winner d = (text "claim.json", record { private_regular = true; contents = text "{}" }) ∷ d

abbrev id : Value
id = string input_id

adopted :
    (prepare claim_host winner (text "0") (text input_id) proof (text "claim.json") id id []).0
    ≡ ok ticket
unfolding prepare raw_of new_ticket list_beq
adopted = refl

other_work :
    (prepare claim_host winner
      (text "0")
      (text input_id)
      proof
      (text "claim.json")
      id
      (string "00000000-0000-0000-0000-000000000000")
      []).0
    ≡ err value_error
unfolding prepare raw_of new_ticket list_beq
other_work = refl

no_staging_name : (text "claim.json" == staged_name (text "0")) ≡ false
unfolding staged_name list_beq
no_staging_name = refl

left_by_winner : Leaves winner (staged_name (text "0"))
unfolding staged_name lookup list_beq
left_by_winner = record { left = λ d f h. h }

prepare-IsPrepared_example :
    IsPrepared claim_host id id
      (text "claim.json")
      ticket
      (prepare claim_host winner (text "0") (text input_id) proof (text "claim.json") id id []).1
prepare-IsPrepared_example =
    prepare-IsPrepared claim_host winner (text "0") (text input_id) proof (text "claim.json") id id
      [] no_staging_name left_by_winner adopted

abbrev old_file : File
old_file = record { private_regular = true; contents = text "{" }

abbrev other_name : Text
other_name = text "other.json"

other-not-staged : (other_name == staged_name (text "0")) ≡ false
unfolding staged_name list_beq
other-not-staged = refl

other_kept : KeepsFile (λ d. d) other_name old_file
other_kept = record { kept = λ d h. h }

other_there : lookup other_name ((other_name, old_file) ∷ []) ≡ some old_file
unfolding lookup list_beq
other_there = refl

prepare-keeps_example :
    lookup other_name
      (prepare claim_host
        (λ d. d)
        (text "0")
        (text input_id)
        proof
        (text "claim.json")
        id
        id
        ((other_name, old_file) ∷ [])).1
    ≡ some old_file
prepare-keeps_example =
    prepare-keeps claim_host (λ d. d) (text "0") other_name old_file other-not-staged other_kept
      (text input_id) proof (text "claim.json") id id ((other_name, old_file) ∷ []) other_there

launched :
    (Prepare.prepare run_host
      (λ d. d)
      (text "0")
      (text "0123456789abcdef0123456789abcdef")
      ticket
      (string "https://h/mcp")
      frozen
      config
      none
      []).0
    ≡ ok launch_record
unfolding Prepare.prepare raw_of is_refused join new_ticket list_beq index
launched = refl

left_alone : Leaves (λ d. d) (Publish.staged_name (text "0"))
left_alone = record { left = λ d f h. h }

prepare-IsIntent_example :
    (value : Value) × IsIntent run_host
      (text "0123456789abcdef0123456789abcdef")
      ticket
      frozen
      config
      []
      value
    × IsPublished run_host launch value launch_record
        (Prepare.prepare run_host
          (λ d. d)
          (text "0")
          (text "0123456789abcdef0123456789abcdef")
          ticket
          (string "https://h/mcp")
          frozen
          config
          none
          []).1
prepare-IsIntent_example =
    prepare-IsIntent run_host (λ d. d) (text "0") (text "0123456789abcdef0123456789abcdef") ticket
      (string "https://h/mcp") frozen config none [] left_alone launched

abbrev runs : List (Text × RunDirectory)
runs =
    (
      text input_id,
      record {
        opens = true;
        private = true;
        files = (text "claim.json", record { private_regular = true; contents = text "{}" }) ∷ [];
      },
    )
    ∷ []

-- A Run that has a claim and no record is pending.
claim_only : unresolved claim_host id runs ≡ ok ((text input_id, text "claim-only") ∷ [])
unfolding unresolved raw_of new_ticket list_beq
claim_only = refl

unresolved-IsInspected_example :
    IsInspected claim_host ((text input_id, text "claim-only") ∷ []) (text input_id) (record {
      opens = true;
      private = true;
      files = (text "claim.json", record { private_regular = true; contents = text "{}" }) ∷ [];
    })
    × Unit {0}
unresolved-IsInspected_example = unresolved-IsInspected claim_host id runs claim_only
