-- ===== src/Paths/Split.antt =====
-- How `split` and `join` belong together.
use simmis.Prelude.{
  sym, ◌∙◌, ==_refl, ℕ, ◌≡◌, ◌<◌, refl, ap, List, [], ◌∷◌, ◌++◌, Bool-cases, inl, inr, ◌==◌, nat_eq,
  arith, length, append_assoc, nat_beq_iff,
}
use simmis.Value.{Text}
use simmis.Paths.{split, join, push_char}

join-push_char : (sep c : ℕ) (l : List Text) → join sep (push_char c l) ≡ c ∷ join sep l
unfolding join push_char
join-push_char sep c [] = refl
join-push_char sep c (p ∷ []) = refl
join-push_char sep c (p ∷ q ∷ r) = refl

join-nil_cons : (sep : ℕ) (l : List Text) → 0 < length l → join sep ([] ∷ l) ≡ sep ∷ join sep l
unfolding join
join-nil_cons sep [] h = absurd (omega arith)
join-nil_cons sep (q ∷ r) h = refl

length-push_char : (c : ℕ) (l : List Text) → 0 < length (push_char c l)
unfolding push_char
length-push_char c [] = omega arith
length-push_char c (p ∷ r) = omega arith

pub length-split_pos : (sep : ℕ) (s : Text) → 0 < length (split sep s)
unfolding split
length-split_pos sep [] = omega arith
length-split_pos sep (c ∷ cs) = ground (arith, length-push_char c (split sep cs))

-- Splitting loses nothing.
pub join-split : (sep : ℕ) (s : Text) → join sep (split sep s) ≡ s
unfolding split
join-split sep [] = unfold join in refl
join-split sep (c ∷ cs) = elim (Bool-cases (c == sep)) [
  | inl e ↦ rw e (
      join-nil_cons sep (split sep cs) (length-split_pos sep cs)
      ∙ ap (λ t. sep ∷ t) (join-split sep cs)
      ∙ ap (λ x. x ∷ cs) (sym ((nat_beq_iff c sep).0 e)))
  | inr e ↦ rw e (join-push_char sep c (split sep cs) ∙ ap (λ t. c ∷ t) (join-split sep cs))
]

push_char-append :
    (c : ℕ) (l m : List Text) → 0 < length l → push_char c (l ++ m) ≡ push_char c l ++ m
unfolding push_char
push_char-append c [] m h = absurd (omega arith)
push_char-append c (p ∷ r) m h = refl

-- A separator in the text is a border between parts.
pub split-append : (sep : ℕ) (s t : Text) → split sep (s ++ sep ∷ t) ≡ split sep s ++ split sep t
unfolding split
split-append sep [] t = rw (==_refl sep) refl
split-append sep (c ∷ cs) t = elim (Bool-cases (c == sep)) [
  | inl e ↦ rw e (ap (λ l. [] ∷ l) (split-append sep cs t))
  | inr e ↦ rw e (
      ap (push_char c) (split-append sep cs t)
      ∙ push_char-append c (split sep cs) (split sep t) (length-split_pos sep cs))
]

-- Joining two non-empty lists of parts puts one separator between them.
pub join-append :
    (sep : ℕ) (l m : List Text)
    → 0 < length l
    → 0 < length m
    → join sep (l ++ m) ≡ join sep l ++ sep ∷ join sep m
unfolding join
join-append sep [] m h k = absurd (omega arith)
join-append sep (p ∷ []) [] h k = absurd (omega arith)
join-append sep (p ∷ []) (q ∷ r) h k = refl
join-append sep (p ∷ q ∷ l) m h k =
    ap (λ t. p ++ sep ∷ t) (join-append sep (q ∷ l) m (omega arith) k)
    ∙ sym (append_assoc p (sep ∷ join sep (q ∷ l)) (sep ∷ join sep m))
