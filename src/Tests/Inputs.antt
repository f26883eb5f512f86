-- ===== src/Tests/Inputs.antt =====
-- Runs and instances for worker_inputs.py.
use simmis.Prelude.{
  ◌↔◌, list_eq, nat_eq, List, flatten, ◌≡◌, ◌⊎◌, refl, true, [], ◌∷◌, ok, err, value_error,
  eof_error, contains, Refuses,
}
use simmis.Inputs.{canonical_uuid, validate}
use simmis.Inputs.Validate.{IsFrozen, validate-IsFrozen, Refuses-validate}
use simmis.Inputs.Fetch.{fetch_loop, read_part, parse_bundle, Client, fetch}
use simmis.Inputs.Fetch.Total.{Raised, fetch-error}
use simmis.Inputs.Fetch.Whole.{IsFetched, fetch-IsWhole}
use simmis.Paths.{join, is_refused, path_parts, split, slash, collides}
use simmis.Paths.Safety.{IsSafePath, path_parts-IsSafePath}
use simmis.Paths.Collision.{IsBelow, collides_iff}
use simmis.Tests.Sample.{host, frozen, config, input_id, string, number, no_digest, raw_of}
use simmis.Value.{Text, text, Value, dict, str}

accepted_path :
    path_parts host.casefold (str (text "src/a.txt")) ≡ ok (text "src" ∷ text "a.txt" ∷ [])
unfolding path_parts contains split is_refused join
accepted_path = refl

refused_paths :
    (path_parts host.casefold (str (text "a/../b")) ≡ err value_error)
    × (path_parts host.casefold (str (text "/etc")) ≡ err value_error)
    × (path_parts host.casefold (str (text ".git/config")) ≡ err value_error)
unfolding path_parts contains split is_refused join
refused_paths = (refl, refl, refl)

path_parts-IsSafePath_example :
    IsSafePath host.casefold (text "src/a.txt") (text "src" ∷ text "a.txt" ∷ [])
path_parts-IsSafePath_example = path_parts-IsSafePath host.casefold (text "src/a.txt") accepted_path

accepted_input : validate host frozen config ≡ ok frozen
unfolding validate contains split is_refused join
accepted_input = refl

validate-IsFrozen_example : (frozen ≡ frozen) × IsFrozen host frozen config
validate-IsFrozen_example = validate-IsFrozen host frozen config accepted_input

Refuses-validate_example : Refuses (validate host (string "x") config)
Refuses-validate_example = Refuses-validate host (string "x") config

-- A server that answers every call with the same single chunk, which is the whole input.
abbrev chunk : Value
chunk = dict (
    (text "input-id", string input_id)
    ∷ (text "bytes", number 2)
    ∷ (text "sha256", str no_digest)
    ∷ (text "offset", number 0)
    ∷ (text "base64", string "{}")
    ∷ [])

abbrev one_chunk : Client Unit
one_chunk name arguments s = (ok chunk, s)

abbrev closed_pipe : Client Unit
closed_pipe name arguments s = (err eof_error, s)

fetched : (fetch host one_chunk (string input_id) config tt).0 ≡ ok frozen
unfolding fetch fetch_loop parse_bundle raw_of flatten canonical_uuid read_part contains split
    is_refused join
fetched = refl

fetch-IsWhole_example : IsFetched host one_chunk (string input_id) frozen config tt
fetch-IsWhole_example = fetch-IsWhole host one_chunk (string input_id) config tt fetched

lost : (fetch host closed_pipe (string input_id) config tt).0 ≡ err eof_error
unfolding fetch fetch_loop canonical_uuid
lost = refl

fetch-error_example : (eof_error ≡ value_error) ⊎ Raised host closed_pipe eof_error
fetch-error_example = fetch-error host closed_pipe (string input_id) config tt eof_error lost

abbrev names : List Text
names = text "src" ∷ text "b" ∷ []

collides_iff_example :
    (collides names (split slash (text "src/a.txt")) ≡ true)
    ↔ ((p : Text) × (contains names p ≡ true) × IsBelow p (text "src/a.txt"))
collides_iff_example = collides_iff names (text "src/a.txt")
