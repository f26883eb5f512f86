-- ===== src/Paths/Collision.antt =====
-- `collides` and the names that are a directory on the way to a file.
use simmis.Prelude.{
  ◌↔◌, length-drop, length-take, take-append-drop, ◌∙◌, take-append_left, sym, length-append, ℕ,
  zero, suc, ◌+◌, ◌-◌, ◌≤◌, ◌<◌, ◌≡◌, refl, ap, Bool, true, List, ◌∷◌, ◌++◌, Bool-cases, inl, inr,
  arith, length, take, drop, any, range, contains, list_eq, nat_eq,
}
use simmis.Value.{Text}
use simmis.Paths.{split, join, slash, collides}
use simmis.Paths.Split.{join-split, split-append, join-append, length-split_pos}

-- `any` over a range finds the index that passes, and an index that passes is found.
any-range :
    (p : ℕ → Bool) (first count n : ℕ)
    → first ≤ n
    → n < first + count
    → p n ≡ true
    → any p (range first count) ≡ true
unfolding any range
any-range p first zero n h k e = absurd (omega arith)
any-range p first (suc count) n h k e = elim (Bool-cases (p first)) [
  | inl now ↦ rw now refl
  | inr later ↦ rw later (any-range p (first + 1) count n (grind (arith)) (omega arith) e)
]

any-range_witness :
    (p : ℕ → Bool) (first count : ℕ)
    → any p (range first count) ≡ true
    → (n : ℕ) × (first ≤ n) × (n < first + count) × (p n ≡ true)
unfolding any range
any-range_witness p first zero e = cc
any-range_witness p first (suc count) e = elim (Bool-cases (p first)) [
  | inl now ↦ (first, omega arith, omega arith, now)
  | inr later ↦
      let (n, h, k, q) = any-range_witness p (first + 1) count (rw later at e) in
      (n, omega arith, omega arith, q)
]

-- The path `q` lies below the path `p`.
abbrev pub IsBelow : Text → Text → Type 0
IsBelow p q = (r : Text) × (q ≡ p ++ slash ∷ r)

pub collides-of_IsBelow :
    (names : List Text) (p q : Text)
    → contains names p ≡ true
    → IsBelow p q
    → collides names (split slash q) ≡ true
unfolding collides
collides-of_IsBelow names p q m (r, e) =
    let a = split slash p in
    let b = split slash r in
    rw (e, split-append)
      (any-range (λ n. contains names (join slash (take n (a ++ b)))) 1 (length (a ++ b) - 1)
        (length a) (length-split_pos slash p)
        (omega (arith, length-append a b, length-split_pos slash r, length-split_pos slash p))
        (rw (take-append_left, join-split) m))

IsBelow-of_collides :
    (names : List Text) (q : Text)
    → collides names (split slash q) ≡ true
    → (p : Text) × (contains names p ≡ true) × IsBelow p q
unfolding collides
IsBelow-of_collides names q e =
    let parts = split slash q in
    let (n, h, k, m) = any-range_witness _ 1 (length parts - 1) e in
    (
      join slash (take n parts),
      m,
      (
        join slash (drop n parts),
        sym (join-split slash q)
            ∙ ap (join slash) (sym (take-append-drop n parts))
            ∙ join-append slash (take n parts) (drop n parts) (omega (arith, length-take n parts))
                (omega (arith, length-drop n parts)),
      ),
    )

-- A path is refused for a collision exactly when a listed name is a directory on its way.
pub collides_iff :
    (names : List Text) (q : Text)
    → (collides names (split slash q) ≡ true)
      ↔ ((p : Text) × (contains names p ≡ true) × IsBelow p q)
collides_iff names q =
    (IsBelow-of_collides names q, λ (p, m, below). collides-of_IsBelow names p q m below)
