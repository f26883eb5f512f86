-- ===== src/ExecutionUnit/Observer/Sets.antt =====
-- The three sets of an observer: a confirmed name is a reference, a launched one is confirmed.
use simmis.Prelude.{
  ◌≡◌, refl, sym, subst, ◌∙◌, true, List, contains, list_eq, nat_eq, list_beq_iff, ◌==◌, ==_refl,
  Bool-cases, inl, inr, arith,
}
use simmis.ExecutionUnit.Observer.{Observer}
use simmis.ExecutionUnit.Observer.Stable.{IsStable}
use simmis.Outputs.{discard, add}
use simmis.Outputs.Written.{contains-discard, contains-add}
use simmis.Value.{Text}

pub record IsConsistent (o : Observer) : Type 0 where
  pub confirmed : (n : Text) → contains o.confirmed n ≡ true → contains o.references n ≡ true
  pub launched : (n : Text) → contains o.launched n ≡ true → contains o.confirmed n ≡ true

-- Of a name that is being exposed the reference is recorded.
abbrev pub Exposing : Text → Observer → Type 0
Exposing n o = IsConsistent o × (contains o.references n ≡ true)

add-subset :
    (n : Text) (xs ys : List Text)
    → ((q : Text) → contains xs q ≡ true → contains ys q ≡ true)
    → (q : Text) → contains (add n xs) q ≡ true
    → contains (add n ys) q ≡ true
add-subset n xs ys s q h =
    let hx = contains-add n q xs in let hy = contains-add n q ys in ground (arith, s q)

add-subset_of :
    (n : Text) (xs ys : List Text)
    → contains ys n ≡ true
    → ((q : Text) → contains xs q ≡ true → contains ys q ≡ true)
    → (q : Text) → contains (add n xs) q ≡ true
    → contains ys q ≡ true
add-subset_of n xs ys there s q h = elim (Bool-cases (q == n)) [
  | inl same ↦ subst (λ (m : Text). contains ys m ≡ true) (sym ((list_beq_iff q n).0 same)) there
  | inr other ↦ let hx = contains-add n q xs in ground (arith, s q)
]

discard-subset :
    (n : Text) (xs ys : List Text)
    → ((q : Text) → contains xs q ≡ true → contains ys q ≡ true)
    → (q : Text) → contains (discard n xs) q ≡ true
    → contains (discard n ys) q ≡ true
discard-subset n xs ys s q h =
    let hx = contains-discard n q xs in let hy = contains-discard n q ys in ground (arith, s q)

subset-add :
    (n : Text) (xs ys : List Text)
    → ((q : Text) → contains xs q ≡ true → contains ys q ≡ true)
    → (q : Text) → contains xs q ≡ true
    → contains (add n ys) q ≡ true
subset-add n xs ys s q h = let hy = contains-add n q ys in ground (arith, s q)

pub contains-add_self : (n : Text) (xs : List Text) → contains (add n xs) n ≡ true
contains-add_self n xs = contains-add n n xs ∙ rw (==_refl n) refl

pub IsConsistent-stable : IsStable IsConsistent Exposing
IsConsistent-stable = record {
  begin = λ n o fresh c. (
    record { confirmed = subset-add n o.confirmed o.references c.confirmed; launched = c.launched },
    contains-add_self n o.references,
  );
  unanswered = λ n o p. p.0;
  launched = λ n o p. record {
    confirmed = add-subset_of n o.confirmed o.references p.1 p.0.confirmed;
    launched = add-subset n o.launched o.confirmed p.0.launched;
  };
  attached = λ n o p. record {
    confirmed = add-subset_of n o.confirmed o.references p.1 p.0.confirmed;
    launched = subset-add n o.launched o.confirmed p.0.launched;
  };
  dropped = λ n o there c. record {
    confirmed = discard-subset n o.confirmed o.references c.confirmed;
    launched = discard-subset n o.launched o.confirmed c.launched;
  };
}
