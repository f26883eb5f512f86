-- ===== src/Outputs/Written.antt =====
-- An accepted output: what it may write, how much, and the tree that it leaves.
use simmis.Prelude.{
  and-eq-true, ℕ, ◌+◌, ◌≤◌, ◌≡◌, refl, sym, ap, ◌∙◌, Bool, true, false, ◌||◌, ◌&&◌, not, List, [],
  ◌∷◌, leb, leb→le, ◌==◌, list_eq, nat_eq, list_beq_iff, contains, Result, ok, ◌>>=◌, >>=-eq-ok,
  require-eq-ok, ok-injective, Bool-cases, inl, inr, arith, if◌then◌else◌, not-eq-true, ==_refl,
}
use simmis.Host.{Host}
use simmis.Inputs.{max_total_bytes}
use simmis.Outputs.{
  discard, add, is_file, is_deliverable, output_size, check_outputs, check_written,
}
use simmis.Paths.{path_parts, collides, split, slash}
use simmis.Paths.Safety.{IsSafePath, path_parts-IsSafePath, path_parts-eq-ok}
use simmis.Value.{Text, Value, str, Dict, keys, lookup}

-- The names of a Python dict are distinct.
unfoldable pub is_unique : List Text → Bool
unfolding contains
is_unique [] = true
is_unique (k ∷ ks) = not (contains ks k) && is_unique ks

-- The tree that an output leaves, by name: what it says of a name, else what was selected.
unfoldable pub is_left : List Text → Dict → Text → Bool
unfolding contains lookup
is_left written [] p = contains written p
is_left written ((path, file) ∷ files) p =
    let rest = is_left written files p in if p == path then is_file file else rest

pub contains-discard :
    (p q : Text) (names : List Text)
    → contains (discard p names) q ≡ (not (q == p) && contains names q)
unfolding contains discard
contains-discard p q [] = ground arith
contains-discard p q (n ∷ names) =
    ground (arith, contains-discard p q names, list_beq_iff q n, list_beq_iff p n, list_beq_iff q p)

pub contains-add :
    (p q : Text) (names : List Text) → contains (add p names) q ≡ (q == p || contains names q)
unfolding contains add
contains-add p q names = elim (Bool-cases (contains names p)) [
  | inl there ↦ rw there (elim (Bool-cases (q == p)) [
    | inl same ↦ rw ((list_beq_iff q p).0 same, there, ==_refl p) refl
    | inr other ↦ rw other refl
  ])
  | inr missing ↦ rw missing refl
]

contains-updated :
    (t : Bool) (path p : Text) (written : List Text)
    → contains (if t then add path written else discard path written) p
      ≡ (if p == path then t else contains written p)
contains-updated true path p written =
    rw (contains-add path p written)
      (elim (Bool-cases (p == path)) [ inl same ↦ rw same refl | inr other ↦ rw other refl ])
contains-updated false path p written =
    rw (contains-discard path p written)
      (elim (Bool-cases (p == path)) [ inl same ↦ rw same refl | inr other ↦ rw other refl ])

-- A name that the output does not mention stays as it was.
is_left-other :
    (written : List Text) (files : Dict) (p : Text)
    → contains (keys files) p ≡ false
    → is_left written files p ≡ contains written p
unfolding is_left keys contains
is_left-other written [] p h = refl
is_left-other written ((path, file) ∷ files) p h = elim (Bool-cases (p == path)) [
  | inl same ↦ cc
  | inr other ↦ rw other (is_left-other written files p (rw other at h))
]

is_left-cong :
    (written updated : List Text) (files : Dict) (p : Text)
    → contains written p ≡ contains updated p
    → is_left written files p ≡ is_left updated files p
unfolding is_left
is_left-cong written updated [] p h = h
is_left-cong written updated ((path, file) ∷ files) p h =
    ap (λ b. if p == path then is_file file else b) (is_left-cong written updated files p h)

module _ (host : Host) where
  pub record IsAllowed (selected : List Text) (path : Text) (file : Value) : Type 0 where
    pub below : IsSafePath host.casefold path (split slash path)
    pub permitted : (contains selected path || is_deliverable path file) ≡ true
    pub size : ℕ
    pub size_is : output_size host file ≡ ok size

  pub AllAllowed : List Text → Dict → Type 0
  AllAllowed selected [] = Unit
  AllAllowed selected ((path, file) ∷ files) =
      IsAllowed selected path file × AllAllowed selected files

  pub check_outputs-AllAllowed :
      (selected : List Text) (files : Dict) (total : ℕ) (written : List Text) {left : List Text}
      → check_outputs host selected files total written ≡ ok left
      → AllAllowed selected files
  unfolding check_outputs AllAllowed
  check_outputs-AllAllowed selected [] total written h = tt
  check_outputs-AllAllowed selected ((path, file) ∷ files) total written h =
      let (parts, ep, h) = >>=-eq-ok (path_parts host.casefold (str path)) _ h in
      let (allowed, h) = require-eq-ok (contains selected path || is_deliverable path file) _ h in
      let (size, es, h) = >>=-eq-ok (output_size host file) _ h in
      let (room, h) = require-eq-ok (leb (total + size) max_total_bytes) _ h in
      let same = path_parts-eq-ok host.casefold path ep in
      (
        record {
          below = rw (← same) (path_parts-IsSafePath host.casefold path ep);
          permitted = allowed;
          size = size;
          size_is = es;
        },
        check_outputs-AllAllowed selected files (total + size)
            (if is_file file then add path written else discard path written) h,
      )

  -- The fold computes the tree that the output leaves.
  pub check_outputs-is_left :
      (selected : List Text) (files : Dict) (total : ℕ) (written : List Text) {left : List Text}
      (p : Text)
      → is_unique (keys files) ≡ true
      → check_outputs host selected files total written ≡ ok left
      → contains left p ≡ is_left written files p
  unfolding check_outputs is_left is_unique keys
  check_outputs-is_left selected [] total written p u h =
      ap (λ l. contains l p) (sym (ok-injective h))
  check_outputs-is_left selected ((path, file) ∷ files) total written p u h =
      let (parts, _, h) = >>=-eq-ok (path_parts host.casefold (str path)) _ h in
      let (_, h) = require-eq-ok (contains selected path || is_deliverable path file) _ h in
      let (size, _, h) = >>=-eq-ok (output_size host file) _ h in
      let (_, h) = require-eq-ok (leb (total + size) max_total_bytes) _ h in
      let updated = if is_file file then add path written else discard path written in
      let (fresh, u) = and-eq-true (not (contains (keys files) path)) (is_unique (keys files)) u in
      let rest = check_outputs-is_left selected files (total + size) updated p u h in
      let now = contains-updated (is_file file) path p written in
      elim (Bool-cases (p == path)) [
        | inl same ↦
            let absent : contains (keys files) p ≡ false =
              rw ((list_beq_iff p path).0 same) (not-eq-true fresh) in
            rw same (rest ∙ is_left-other updated files p absent ∙ rw same at now)
        | inr other ↦ rw other (rest ∙ is_left-cong updated written files p (rw other at now))
      ]

  pub total_size : Dict → Result ℕ
  total_size [] = ok 0
  total_size ((path, file) ∷ files) = do
    size ← output_size host file
    rest ← total_size files
    ok (size + rest)

  total_size-step :
      (path : Text) (file : Value) (files : Dict) (size n : ℕ)
      → output_size host file ≡ ok size
      → total_size files ≡ ok n
      → total_size ((path, file) ∷ files) ≡ ok (size + n)
  unfolding total_size
  total_size-step path file files size n es e = rw (es, e) refl

  pub check_outputs-total_size :
      (selected : List Text) (files : Dict) (total : ℕ) (written : List Text) {left : List Text}
      → total ≤ max_total_bytes
      → check_outputs host selected files total written ≡ ok left
      → (n : ℕ) × (total_size files ≡ ok n) × (total + n ≤ max_total_bytes)
  unfolding check_outputs total_size
  check_outputs-total_size selected [] total written b h = (0, refl, omega arith)
  check_outputs-total_size selected ((path, file) ∷ files) total written b h =
      let (parts, _, h) = >>=-eq-ok (path_parts host.casefold (str path)) _ h in
      let (_, h) = require-eq-ok (contains selected path || is_deliverable path file) _ h in
      let (size, es, h) = >>=-eq-ok (output_size host file) _ h in
      let (room, h) = require-eq-ok (leb (total + size) max_total_bytes) _ h in
      let (n, e, k) =
        check_outputs-total_size selected files (total + size) _
          (leb→le (total + size) max_total_bytes room) h in
      (size + n, total_size-step path file files size n es e, omega (arith, k))

  pub check_written-clear :
      (written rest : List Text) (q : Text)
      → check_written host written rest ≡ ok tt
      → contains rest q ≡ true
      → collides written (split slash q) ≡ false
  unfolding check_written contains
  check_written-clear written [] q h m = cc
  check_written-clear written (path ∷ rest) q h m =
      let (parts, ep, h) = >>=-eq-ok (path_parts host.casefold (str path)) _ h in
      let (clear, h) = require-eq-ok (not (collides written parts)) _ h in
      let same = path_parts-eq-ok host.casefold path ep in
      elim (Bool-cases (q == path)) [
        | inl here ↦ rw ((list_beq_iff q path).0 here, ← same) (not-eq-true clear)
        | inr other ↦ check_written-clear written rest q h (rw other at m)
      ]
