-- ===== src/Outputs.antt =====
-- scripts/worker_outputs.py, `validate`: the portable output of a task, against its frozen input.
pub mod Written
pub mod Accepted
use simmis.Prelude.{
  ℕ, zero, suc, ◌+◌, ◌≡◌, Bool, true, false, ◌&&◌, ◌||◌, not, List, [], ◌∷◌, ◌++◌, leb, ◌==◌,
  contains, list_eq, nat_eq, length, Result, ok, err, ◌>>=◌, ◌>>◌, require, value_error,
  if◌then◌else◌,
}
use simmis.ExecutionUnit.{starts_with}
use simmis.Host.{Host}
use simmis.Inputs.{file_bytes, max_files, max_total_bytes, as_dict}
use simmis.Paths.{path_parts, collides, is_encodable}
use simmis.Value.{
  Text, Bytes, text, Value, null, str, int, Dict, closed, item, index, keys, is_int_in, is_str,
}
use simmis.Inputs

-- set.discard and set.add
unfoldable pub discard : Text → List Text → List Text
discard p [] = []
discard p (q ∷ names) = let rest = discard p names in if p == q then rest else q ∷ rest

unfoldable pub add : Text → List Text → List Text
unfolding contains
add p names = if contains names p then names else p ∷ names

-- file is not None
abbrev pub is_file : Value → Bool
is_file null = false
is_file _ = true

unfoldable pub is_deliverable : Text → Value → Bool
unfolding starts_with
is_deliverable path file = is_file file && starts_with (text "out/") path

module _ (host : Host) where
  unfoldable pub output_size : Value → Result ℕ
  unfolding file_bytes
  output_size null = ok 0
  output_size file = do contents ← file_bytes host file; ok (length contents)

  -- The loop over output["files"], over the total and the names that would be there afterwards.
  unfoldable pub check_outputs : List Text → Dict → ℕ → List Text → Result (List Text)
  unfolding path_parts contains is_deliverable output_size discard add
  check_outputs selected [] total written = ok written
  check_outputs selected ((path, file) ∷ files) total written = do
    _ ← path_parts host.casefold (str path)
    require (contains selected path || is_deliverable path file)
    size ← output_size file
    require (leb (total + size) max_total_bytes)
    check_outputs selected files (total + size)
        (if is_file file then add path written else discard path written)

  -- The loop over the names written.
  unfoldable pub check_written : List Text → List Text → Result (Unit {0})
  unfolding path_parts collides
  check_written written [] = ok tt
  check_written written (path ∷ rest) = do
    parts ← path_parts host.casefold (str path)
    require (not (collides written parts))
    check_written written rest

  unfoldable pub validate : Value → Value → Value → Result Value
  unfolding Inputs.validate closed item index is_str is_int_in is_encodable as_dict check_outputs
      check_written keys
  validate frozen config output = do
    _ ← Inputs.validate host frozen config
    o ← closed output (text "files" ∷ text "summary" ∷ text "exit-code" ∷ [])
    summary ← item (text "summary") o
    require (is_str (λ s. leb (length s) 16000) summary)
    exit_code ← item (text "exit-code") o
    require (is_int_in 0 255 exit_code)
    f ← item (text "files") o
    files ← as_dict f
    require (leb (length files) max_files)
    require (is_str is_encodable summary)
    i ← index frozen (text "files")
    selected ← as_dict i
    written ← check_outputs (keys selected) files 0 (keys selected)
    check_written written written
    ok output
