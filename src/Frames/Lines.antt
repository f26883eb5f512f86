-- ===== src/Frames/Lines.antt =====
-- The first newline of the pending bytes of `Frames.read`.
use simmis.Prelude.{
  if◌then◌else◌, ℕ, suc, ◌+◌, ◌≤◌, ◌≡◌, refl, ap, subst, ◌∙◌, Bool, true, false, [], ◌∷◌, ◌++◌,
  ◌==◌, nat_eq, Option, none, some, length, take, drop, contains, arith, length-append,
}
use simmis.Frames.{find_newline}
use simmis.Value.{Bytes}

-- A newline at `n`: what is before it, and what is after.
pub record IsCut (bytes : Bytes) (n : ℕ) : Type 0 where
  pub body : Bytes
  pub after : Bytes
  pub whole : bytes ≡ body ++ 10 ∷ after
  pub only : contains body 10 ≡ false
  pub at : n ≡ length body

cut :
    (b : ℕ) (bs : Bytes) (t : Bool) (found : Option ℕ) {n : ℕ}
    → b == 10 ≡ t
    → ((m : ℕ) → found ≡ some m → IsCut bs m)
    → (if t then some 0 else elim found [ none ↦ none | some m ↦ some (suc m) ]) ≡ some n
    → IsCut (b ∷ bs) n
unfolding contains
cut b bs true found e ih h = record {
  body = [];
  after = bs;
  whole = ap (λ (x : ℕ). x ∷ bs) (ground arith);
  only = refl;
  at = ground arith;
}
cut b bs false none e ih h = let h' = h in ground arith
cut b bs false (some m) e ih h =
    let c = ih m refl in
    record {
      body = b ∷ c.body;
      after = c.after;
      whole = ap (λ (xs : Bytes). b ∷ xs) c.whole;
      only = ground (arith, c.only);
      at = ground (arith, c.at);
    }

pub IsCut-at : (bytes : Bytes) {n : ℕ} → find_newline bytes ≡ some n → IsCut bytes n
unfolding find_newline
IsCut-at [] h = let h' = h in ground arith
IsCut-at (b ∷ bs) h = cut b bs (b == 10) (find_newline bs) refl (λ m. IsCut-at bs) h

take_body : (body after : Bytes) → take (suc (length body)) (body ++ 10 ∷ after) ≡ body ++ 10 ∷ []
take_body [] after = refl
take_body (b ∷ bs) after = ap (λ (xs : Bytes). b ∷ xs) (take_body bs after)

drop_body : (body after : Bytes) → drop (suc (length body)) (body ++ 10 ∷ after) ≡ after
drop_body [] after = refl
drop_body (b ∷ bs) after = drop_body bs after

after_body : {bytes : Bytes} {n : ℕ} (c : IsCut bytes n) → suc (length c.body) ≡ n + 1
after_body c = omega (arith, c.at)

pub taken : {bytes : Bytes} {n : ℕ} (c : IsCut bytes n) → take (n + 1) bytes ≡ c.body ++ 10 ∷ []
taken {n = n} c =
    ap (λ (xs : Bytes). take (n + 1) xs) c.whole
    ∙ subst (λ (k : ℕ). take k (c.body ++ 10 ∷ c.after) ≡ c.body ++ 10 ∷ []) (after_body c)
        (take_body c.body c.after)

pub dropped : {bytes : Bytes} {n : ℕ} (c : IsCut bytes n) → drop (n + 1) bytes ≡ c.after
dropped {n = n} c =
    ap (λ (xs : Bytes). drop (n + 1) xs) c.whole
    ∙ subst (λ (k : ℕ). drop k (c.body ++ 10 ∷ c.after) ≡ c.after) (after_body c)
        (drop_body c.body c.after)

pub shorter : {bytes : Bytes} {n : ℕ} (c : IsCut bytes n) → length c.after ≤ length bytes
shorter {bytes = bytes} c =
    let e = ap (λ (xs : Bytes). length xs) c.whole ∙ length-append c.body (10 ∷ c.after) in
    omega arith
