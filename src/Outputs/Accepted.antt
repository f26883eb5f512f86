-- ===== src/Outputs/Accepted.antt =====
-- What `validate` accepts as a whole.
use mathlib.Core.Bool.{false≢true}
use simmis.Prelude.{
  ℕ, ◌≤◌, ◌≡◌, sym, ap, subst, ◌∙◌, true, List, [], ◌∷◌, leb, leb→le, list_eq, nat_eq, contains,
  length, ok, ◌>>=◌, >>=-eq-ok, require-eq-ok, ok-injective, arith, list_beq,
}
use simmis.Host.{Host}
use simmis.Inputs.{max_files, max_total_bytes, as_dict}
use simmis.Outputs.{check_outputs, check_written, validate}
use simmis.Outputs.Written.{
  is_unique, is_left, AllAllowed, total_size, check_outputs-AllAllowed, check_outputs-is_left,
  check_outputs-total_size, check_written-clear,
}
use simmis.Paths.{is_encodable}
use simmis.Paths.Collision.{IsBelow, collides-of_IsBelow}
use simmis.Value.{
  Text, text, Value, obj, Dict, dict, fields, keys, closed, item, index, is_str, is_int_in,
}
use simmis.Value.Laws.{closed-index, entries-fields, fields-entries}
use simmis.Inputs

as_dict-dict : (d : Dict) → as_dict (dict d) ≡ ok d
unfolding as_dict
as_dict-dict d = ap ok (entries-fields d)

as_dict-eq : (v : Value) {d : Dict} → as_dict v ≡ ok d → v ≡ dict d
unfolding as_dict
as_dict-eq (obj fs) h = ap obj (sym (fields-entries fs) ∙ ap fields (ok-injective h))
as_dict-eq _ h = cc

module _ (host : Host) where
  -- An output that keeps to what its frozen input allows.
  pub record IsOutput (frozen : Value) (files : Dict) : Type 0 where
    pub selected : Dict
    pub selected_is : index frozen (text "files") ≡ ok (dict selected)
    pub allowed : AllAllowed host (keys selected) files
    pub few : length files ≤ max_files
    pub size : ℕ
    pub size_is : total_size host files ≡ ok size
    pub light : size ≤ max_total_bytes
    pub apart :
        (p q : Text)
        → is_left (keys selected) files p ≡ true
        → is_left (keys selected) files q ≡ true
        → ¬ IsBelow p q

  check_outputs-IsOutput :
      (frozen : Value) (selected files : Dict) (written : List Text) {u : Unit {0}}
      → index frozen (text "files") ≡ ok (dict selected)
      → leb (length files) max_files ≡ true
      → is_unique (keys files) ≡ true
      → check_outputs host (keys selected) files 0 (keys selected) ≡ ok written
      → check_written host written written ≡ ok u
      → IsOutput frozen files
  check_outputs-IsOutput frozen selected files written stated few unique h k =
      let names = keys selected in
      let (n, size, light) = check_outputs-total_size host names files 0 names (omega arith) h in
      let left : (r : Text) → contains written r ≡ is_left names files r =
        λ r. check_outputs-is_left host names files 0 names r unique h in
      record {
        selected = selected;
        selected_is = stated;
        allowed = check_outputs-AllAllowed host names files 0 names h;
        few = leb→le (length files) max_files few;
        size = n;
        size_is = size;
        light = omega (arith, light);
        apart = λ p q hp hq b. false≢true (
            sym (check_written-clear host written written q k (left q ∙ hq))
            ∙ collides-of_IsBelow written p q (left p ∙ hp) b);
      }

  -- An output that `validate` accepts, whose `files` is a dict without a key twice, is returned as
  -- it is. Each of its paths is safe, and is one of the frozen input's files or a file below out/;
  -- each file that it gives decodes; they are few, and their bytes together are bounded; and in the
  -- tree that the output leaves, no file lies below another file.
  pub validate-IsOutput :
      (frozen config output : Value) (files : Dict) {v : Value}
      → is_unique (keys files) ≡ true
      → index output (text "files") ≡ ok (dict files)
      → validate host frozen config output ≡ ok v
      → (v ≡ output) × IsOutput frozen files
  unfolding validate contains list_beq
  validate-IsOutput frozen config output files {v} unique stated h =
      let names = text "files" ∷ text "summary" ∷ text "exit-code" ∷ [] in
      let (_, _, h) = >>=-eq-ok (Inputs.validate host frozen config) _ h in
      let (o, c, h) = >>=-eq-ok (closed output names) _ h in
      let (summary, _, h) = >>=-eq-ok (item (text "summary") o) _ h in
      let (_, h) = require-eq-ok (is_str (λ s. leb (length s) 16000) summary) _ h in
      let (exit_code, _, h) = >>=-eq-ok (item (text "exit-code") o) _ h in
      let (_, h) = require-eq-ok (is_int_in 0 255 exit_code) _ h in
      let (f, ef, h) = >>=-eq-ok (item (text "files") o) _ h in
      let (given, eg, h) = >>=-eq-ok (as_dict f) _ h in
      let (few, h) = require-eq-ok (leb (length given) max_files) _ h in
      let (_, h) = require-eq-ok (is_str is_encodable summary) _ h in
      let (i, ei, h) = >>=-eq-ok (index frozen (text "files")) _ h in
      let (selected, es, h) = >>=-eq-ok (as_dict i) _ h in
      let (written, ew, h) =
        >>=-eq-ok (check_outputs host (keys selected) given 0 (keys selected)) _ h in
      let (_, k, h) = >>=-eq-ok (check_written host written written) (λ _. ok output) h in
      let same : given ≡ files = ok-injective (
        sym eg
        ∙ ap (λ r. r >>= as_dict)
            (sym ef ∙ sym (closed-index output names (text "files") c) ∙ stated)
        ∙ as_dict-dict files) in
      let accepted =
        check_outputs-IsOutput frozen selected given written (ei ∙ ap ok (as_dict-eq i es)) few
          (subst (λ d. is_unique (keys d) ≡ true) (sym same) unique) ew k in
      (sym (ok-injective h), subst (IsOutput frozen) same accepted)
