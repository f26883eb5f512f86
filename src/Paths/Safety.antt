-- ===== src/Paths/Safety.antt =====
-- What `path_parts` accepts, and where a walk along the parts leads.
use simmis.Prelude.{
  ◌||◌, or-eq-false, ◌==◌, list_beq, ◌∙◌, sym, ◌≤◌, ◌≡◌, false, List, [], ◌∷◌, ◌++◌, arith, length,
  all, All, All-of_any, contains, list_eq, nat_eq, ok, if◌then◌else◌, Refuses, append_assoc,
  append-nil,
}
use simmis.Paths.{is_space, ℕ, list_beq, split, join, slash, path_parts, is_refused, control_paths}
use simmis.Value.{Text, text, str, Value}
use simmis.Paths.Split.{join-split}

-- The directory that a walk along `parts` ends in, seen from the directory `at`: an empty part and
-- `.` stay, `..` climbs, and any other part descends.
drop_last : List Text → List Text
drop_last [] = []
drop_last (x ∷ []) = []
drop_last (x ∷ y ∷ r) = x ∷ drop_last (y ∷ r)

pub resolve : List Text → List Text → List Text
unfolding drop_last
resolve at [] = at
resolve at (p ∷ parts) =
    resolve
      (if contains ([] ∷ text "." ∷ []) p
        then at
        else if p == text ".."
        then drop_last at
        else at ++ p ∷ [])
      parts

descends_of_dots :
    (c : ℕ) (p : Text)
    → contains (text "." ∷ text ".." ∷ []) (c ∷ p) ≡ false
    → (contains ([] ∷ text "." ∷ []) (c ∷ p) ≡ false) × (((c ∷ p) == text "..") ≡ false)
unfolding contains list_beq
descends_of_dots c p h = ground arith

module _ (casefold : Text → Text) where
  pub record IsSafePart (p : Text) : Type 0 where
    pub descends : (contains ([] ∷ text "." ∷ []) p ≡ false) × ((p == text "..") ≡ false)
    pub is_task_data : contains control_paths (casefold p) ≡ false

  is_refused-IsSafePart : (p : Text) → is_refused casefold p ≡ false → IsSafePart p
  unfolding is_refused all
  is_refused-IsSafePart [] h = cc
  is_refused-IsSafePart (c ∷ p) h =
      let dotted = contains (text "." ∷ text ".." ∷ []) (c ∷ p) in
      let blank = all is_space (c ∷ p) in
      let (front, control) =
        or-eq-false (blank || dotted) (contains control_paths (casefold (c ∷ p))) h in
      let (_, dots) = or-eq-false blank dotted front in
      record { descends = descends_of_dots c p dots; is_task_data = control }

  resolve-append : (at parts : List Text) → All IsSafePart parts → resolve at parts ≡ at ++ parts
  unfolding resolve
  resolve-append at [] h = sym (append-nil at)
  resolve-append at (p ∷ parts) (safe, rest) =
      rw (safe.descends.0, safe.descends.1)
        (resolve-append (at ++ p ∷ []) parts rest ∙ append_assoc at (p ∷ []) parts)

  pub record IsSafePath (path : Text) (parts : List Text) : Type 0 where
    pub whole : join slash parts ≡ path
    pub short : length path ≤ 512
    pub below : (at : List Text) → resolve at parts ≡ at ++ parts
    pub safe : All IsSafePart parts

  pub path_parts-eq-ok :
      (path : Text) {parts : List Text}
      → path_parts casefold (str path) ≡ ok parts
      → parts ≡ split slash path
  unfolding path_parts
  path_parts-eq-ok path h = ground arith

  path_parts-le :
      (path : Text) {parts : List Text}
      → path_parts casefold (str path) ≡ ok parts
      → length path ≤ 512
  unfolding path_parts
  path_parts-le path h = ground arith

  parts_safe :
      (path : Text) {parts : List Text}
      → path_parts casefold (str path) ≡ ok parts
      → All IsSafePart parts
  unfolding path_parts
  parts_safe path h =
      rw (path_parts-eq-ok path h)
        (All-of_any (is_refused casefold) is_refused-IsSafePart (split slash path) (ground arith))

  -- An accepted file name of at most 512 characters is whole again when its parts are joined, walks
  -- down one directory a part from wherever it is resolved, never staying or climbing, and no part
  -- folds to a name of runtime configuration.
  pub path_parts-IsSafePath :
      (path : Text) {parts : List Text}
      → path_parts casefold (str path) ≡ ok parts
      → IsSafePath path parts
  path_parts-IsSafePath path {parts} h =
      let e = path_parts-eq-ok path h in
      let safe = parts_safe path h in
      record {
        whole = rw e (join-split slash path);
        short = path_parts-le path h;
        below = λ at. resolve-append at parts safe;
        safe = safe;
      }

  pub Refuses-path_parts : (v : Value) → Refuses (path_parts casefold v)
  unfolding path_parts
  Refuses-path_parts v = record { only = λ e h. ground arith }
