-- ===== src/Inputs/Bundle.antt =====
-- The parts of `validate` of scripts/worker_inputs.py: what they accept, and how they fail.
use mathlib.Core.Bool.{false≢true}
use simmis.Prelude.{
  not-eq-true, list_beq_iff, ℕ, ◌+◌, ◌≤◌, ◌≡◌, ap, sym, ◌∙◌, true, false, not, List, [], ◌∷◌, arith,
  leb, leb→le, ◌==◌, list_eq, nat_eq, contains, length, Result, ok, require-eq-ok, >>=-eq-ok,
  ok-injective, pos, Refuses, Refuses-require, Refuses-ok, Refuses-raise, Refuses-bind, Bool-cases,
  inl, inr,
}
use simmis.Host.{Host}
use simmis.Value.{dict, Text, Bytes, text, Value, str, int, obj, Dict, entries, index, keys}
use simmis.Value.Laws.{fields-entries}
use simmis.Paths.{path_parts, collides, split, slash}
use simmis.Paths.Collision.{IsBelow, collides-of_IsBelow}
use simmis.Paths.Safety.{IsSafePath, path_parts-IsSafePath, path_parts-eq-ok, Refuses-path_parts}
use simmis.Inputs.{file_bytes, max_files, check_files, check_bundle, as_dict, max_total_bytes}
use simmis.Inputs.Files.{IsIntact, file_bytes-IsIntact, Refuses-file_bytes}

-- The size that a file record declares.
abbrev size_in : Result Value → ℕ
size_in (ok (int (pos n))) = n
size_in _ = 0

pub declared_bytes : Dict → ℕ
declared_bytes [] = 0
declared_bytes ((path, file) ∷ d) = size_in (index file (text "bytes")) + declared_bytes d

module _ (host : Host) where
  pub record IsEntry (names : List Text) (path : Text) (file : Value) : Type 0 where
    pub below : IsSafePath host.casefold path (split slash path)
    pub intact : (contents : Bytes) × IsIntact host file contents
    pub clear : collides names (split slash path) ≡ false

  pub AllEntries : List Text → Dict → Type 0
  AllEntries names [] = Unit
  AllEntries names ((path, file) ∷ d) = IsEntry names path file × AllEntries names d

  check_files-AllEntries :
      (names : List Text) (d : Dict) (total t : ℕ)
      → check_files host names d total ≡ ok t
      → AllEntries names d
        × (t ≡ total + declared_bytes d)
        × (total ≤ max_total_bytes → t ≤ max_total_bytes)
  unfolding check_files declared_bytes AllEntries
  check_files-AllEntries names [] total t h =
      let e : total ≡ t = ok-injective h in (tt, omega arith, λ k. omega arith)
  check_files-AllEntries names ((path, file) ∷ d) total t h =
      let (parts, ep, h) = >>=-eq-ok (path_parts host.casefold (str path)) _ h in
      let (clear, h) = require-eq-ok (not (collides names parts)) _ h in
      let (contents, ec, h) = >>=-eq-ok (file_bytes host file) _ h in
      let (room, h) = require-eq-ok (leb (total + length contents) max_total_bytes) _ h in
      let (rest, sum, bound) = check_files-AllEntries names d (total + length contents) t h in
      let same = path_parts-eq-ok host.casefold path ep in
      let size : size_in (index file (text "bytes")) ≡ length contents =
        ap size_in (file_bytes-IsIntact host file ec).size in
      (
        (
          record {
            below = rw (← same) (path_parts-IsSafePath host.casefold path ep);
            intact = (contents, file_bytes-IsIntact host file ec);
            clear = rw (← same) (not-eq-true clear);
          },
          rest,
        ),
        omega (arith, sum, size),
        λ _. bound (leb→le (total + length contents) max_total_bytes room),
      )

  clear_of :
      (names : List Text) (d : Dict) (q : Text)
      → AllEntries names d
      → contains (keys d) q ≡ true
      → collides names (split slash q) ≡ false
  unfolding AllEntries keys contains
  clear_of names [] q a m = cc
  clear_of names ((path, file) ∷ d) q (e, a) m = elim (Bool-cases (q == path)) [
    | inl same ↦ rw ((list_beq_iff q path).0 same) e.clear
    | inr other ↦ clear_of names d q a (rw other at m)
  ]

  -- The files of an accepted bundle.
  pub record IsBundle (d : Dict) : Type 0 where
    pub few : length d ≤ max_files
    pub light : declared_bytes d ≤ max_total_bytes
    pub files : AllEntries (keys d) d
    pub apart :
        (p q : Text) → contains (keys d) p ≡ true → contains (keys d) q ≡ true → ¬ IsBelow p q

  pub check_bundle-IsBundle :
      (v : Value) → check_bundle host v ≡ ok tt → (d : Dict) × (v ≡ dict d) × IsBundle d
  unfolding check_bundle as_dict
  check_bundle-IsBundle (obj fs) h =
      let d = entries fs in
      let (few, h) = require-eq-ok (leb (length d) max_files) _ h in
      let (t, e, _) = >>=-eq-ok (check_files host (keys d) d 0) _ h in
      let (files, sum, bound) = check_files-AllEntries (keys d) d 0 t e in
      (
        d,
        ap obj (sym (fields-entries fs)),
        record {
          few = leb→le (length d) max_files few;
          light = omega (arith, sum, bound (omega arith));
          files = files;
          apart = λ p q hp hq b.
              false≢true
                (sym (clear_of (keys d) d q files hq) ∙ collides-of_IsBelow (keys d) p q hp b);
        },
      )
  check_bundle-IsBundle _ h = cc

  Refuses-check_files :
      (names : List Text) (d : Dict) (total : ℕ) → Refuses (check_files host names d total)
  unfolding check_files
  Refuses-check_files names [] total = Refuses-ok total
  Refuses-check_files names ((path, file) ∷ d) total =
      Refuses-bind (path_parts host.casefold (str path)) _
        (Refuses-path_parts host.casefold (str path))
        λ parts _. Refuses-require (not (collides names parts)) _ λ _.
          Refuses-bind (file_bytes host file) _ (Refuses-file_bytes host file) λ contents _.
            Refuses-require (leb (total + length contents) max_total_bytes) _
              λ _. Refuses-check_files names d (total + length contents)

  pub Refuses-check_bundle : (v : Value) → Refuses (check_bundle host v)
  unfolding check_bundle as_dict
  Refuses-check_bundle (obj fs) =
      let d = entries fs in
      Refuses-require (leb (length d) max_files) _ λ _.
        Refuses-bind (check_files host (keys d) d 0) _ (Refuses-check_files (keys d) d 0)
          λ _ _. Refuses-ok tt
  Refuses-check_bundle _ = Refuses-raise
