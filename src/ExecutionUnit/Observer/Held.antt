-- ===== src/ExecutionUnit/Observer/Held.antt =====
-- A launch whose answer was lost, and the name that it leaves.
use simmis.Prelude.{
  ok-injective, Bool-cases, ℕ, ◌≡◌, refl, sym, ap, subst, ◌∙◌, Bool, true, false, not, not-eq-true,
  List, contains, list_eq, nat_eq, list_beq_iff, ◌==◌, inl, inr, arith, ◌⊎◌, Result, ok, Option,
}
use simmis.ExecutionUnit.Observer.Sets.{IsConsistent, contains-add_self}
use simmis.ExecutionUnit.Observer.{Observer, change, ask}
use simmis.ExecutionUnit.Observer.Stable.{IsStable, On, Keeps-ask}
use simmis.ExecutionUnit.Observer.Methods.{launch}
use simmis.ExecutionUnit.Observer.Exposed.{launch-Triple, Fresh, expose, record_launch}
use simmis.ExecutionUnit.Bus.{Bus}
use simmis.ExecutionUnit.{validate_name}
use simmis.Host.{Host}
use simmis.Outputs.{discard, add}
use simmis.Outputs.Written.{contains-discard, contains-add}
use simmis.Program.{M}
use simmis.Program.Triple.{Triple, Triple-bind, Triple-modify, Triple-mono}
use simmis.Value.{Text, Value}

pub record IsHeld (name : Text) (o : Observer) : Type 0 where
  pub referenced : contains o.references name ≡ true
  pub unconfirmed : contains o.confirmed name ≡ false
  pub unlaunched : contains o.launched name ≡ false

-- Another name is being exposed.
abbrev pub Beside : Text → Text → Observer → Type 0
Beside name n o = IsHeld name o × (name == n ≡ false)

there-add : (n p : Text) (xs : List Text) → contains xs p ≡ true → contains (add n xs) p ≡ true
there-add n p xs h = contains-add n p xs ∙ rw h (ground arith)

missing-add :
    (n p : Text) (xs : List Text)
    → p == n ≡ false
    → contains xs p ≡ false
    → contains (add n xs) p ≡ false
missing-add n p xs other h = contains-add n p xs ∙ rw (other, h) refl

there-discard :
    (n p : Text) (xs : List Text)
    → p == n ≡ false
    → contains xs p ≡ true
    → contains (discard n xs) p ≡ true
there-discard n p xs other h = contains-discard n p xs ∙ rw (other, h) refl

missing-discard :
    (n p : Text) (xs : List Text) → contains xs p ≡ false → contains (discard n xs) p ≡ false
missing-discard n p xs h = contains-discard n p xs ∙ rw h (ground arith)

-- Names that differ in what a list says of them are different.
not-same :
    (n p : Text) (xs : List Text) {b : Bool}
    → contains xs p ≡ b
    → contains xs n ≡ not b
    → p == n ≡ false
not-same n p xs {b = b} h k = elim (Bool-cases (p == n)) [
  | inl same ↦
      let e = subst (λ (m : Text). contains xs m ≡ not b) (sym ((list_beq_iff p n).0 same)) k in
      ground (arith)
  | inr other ↦ other
]

pub IsHeld-stable : (name : Text) → IsStable (IsHeld name) (Beside name)
IsHeld-stable name = record {
  begin = λ n o fresh h. (
    record {
      referenced = there-add n name o.references h.referenced;
      unconfirmed = h.unconfirmed;
      unlaunched = h.unlaunched;
    },
    not-same n name o.references h.referenced fresh,
  );
  unanswered = λ n o p. p.0;
  launched = λ n o p. record {
    referenced = p.0.referenced;
    unconfirmed = missing-add n name o.confirmed p.1 p.0.unconfirmed;
    unlaunched = missing-add n name o.launched p.1 p.0.unlaunched;
  };
  attached = λ n o p. record {
    referenced = p.0.referenced;
    unconfirmed = missing-add n name o.confirmed p.1 p.0.unconfirmed;
    unlaunched = p.0.unlaunched;
  };
  dropped = λ n o there h. record {
    referenced =
        there-discard n name o.references (not-same n name o.confirmed h.unconfirmed there)
          h.referenced;
    unconfirmed = missing-discard n name o.confirmed h.unconfirmed;
    unlaunched = missing-discard n name o.launched h.unlaunched;
  };
}

-- What `launch` leaves where it returns,
pub record IsLaunched (before : Observer) (name : Text) (o : Observer) : Type 0 where
  pub fresh : contains before.references name ≡ false
  pub after : o ≡ record before {
    references = add name before.references;
    confirmed = add name before.confirmed;
    launched = add name before.launched;
  }

-- and where the manager was asked and did not answer.
pub record IsExposed (before : Observer) (name : Text) (o : Observer) : Type 0 where
  pub fresh : contains before.references name ≡ false
  pub after : o ≡ record before { references = add name before.references }

module _ {W : Type 0} (before : Observer) (name : Text) where
  exposure :
      (m : M W (Unit {0}))
      → Triple
          (On (Fresh (λ o. o ≡ before) name))
          (expose name m (record_launch name))
          (λ _. On (IsLaunched before name))
          (On (λ o. (o ≡ before) ⊎ IsExposed before name o))
  exposure m =
      Triple-bind {Q = λ _. On (IsExposed before name)} (change _) _
        (Triple-modify _ (λ s p. record {
          fresh =
              subst (λ (x : Observer). contains x.references name ≡ false) p.0 (not-eq-true p.1);
          after = ap (λ (x : Observer). record x { references = add name x.references }) p.0;
        }))
        λ _.
          Triple-bind {Q = λ _. On (IsExposed before name)} (ask m) (λ _. record_launch name)
            (Triple-mono (ask m) (λ s p. p) (λ a s p. p) (λ s p. inr p)
              (Keeps-ask (IsExposed before name) m))
            λ _.
              Triple-modify
                (λ s. record s {
                  observer = record s.observer {
                    confirmed = add name s.observer.confirmed;
                    launched = add name s.observer.launched;
                  };
                })
                (λ s p. record {
                  fresh = p.fresh;
                  after =
                      ap
                        (λ (x : Observer). record x {
                          confirmed = add name x.confirmed;
                          launched = add name x.launched;
                        })
                        p.after;
                })

-- The sets of the observer after `launch` of a valid name: where it returns, they have the name;
-- where it raises, they are as before, or the name, which was no reference, is a reference only.
pub launch-outcome :
    (host : Host) {W : Type 0} (bus : Bus W) (before : Observer) (n : Value) (name : Text)
    (fds : ℕ × ℕ × ℕ) (timeout_ms : ℕ) (guard : List Text)
    (supervisor : Option (Result (List Text)))
    → validate_name n ≡ ok name
    → Triple
        (On (λ o. o ≡ before))
        (launch host bus n fds timeout_ms guard supervisor)
        (λ _. On (IsLaunched before name))
        (On (λ o. (o ≡ before) ⊎ IsExposed before name o))
launch-outcome host bus before n name fds timeout_ms guard supervisor e =
    launch-Triple host bus (λ o. o ≡ before) (IsLaunched before name)
      (λ o. (o ≡ before) ⊎ IsExposed before name o) n fds timeout_ms guard supervisor (λ o. inl)
      λ given e' m.
        subst
          (λ (x : Text).
            Triple (On (Fresh (λ o. o ≡ before) x)) (expose x m (record_launch x))
              (λ _. On (IsLaunched before name)) (On (λ o. (o ≡ before) ⊎ IsExposed before name o)))
          (ok-injective (sym e ∙ e')) (exposure before name m)

-- An exposed name is held, if the sets were consistent.
pub IsExposed-IsHeld :
    (before : Observer) (name : Text) (o : Observer)
    → IsConsistent before
    → IsExposed before name o
    → IsHeld name o
IsExposed-IsHeld before name o c x = subst (IsHeld name) (sym x.after) (record {
  referenced = contains-add_self name before.references;
  unconfirmed = unconfirmed;
  unlaunched = absent before.launched before.confirmed (c.launched name) unconfirmed;
})
  where
    absent :
        (xs ys : List Text)
        → (contains xs name ≡ true → contains ys name ≡ true)
        → contains ys name ≡ false
        → contains xs name ≡ false
    absent xs ys s h = elim (Bool-cases (contains xs name)) [
      | inl there ↦ let e = s there in ground arith
      | inr missing ↦ missing
    ]

    unconfirmed : contains before.confirmed name ≡ false
    unconfirmed = absent before.confirmed before.references (c.confirmed name) x.fresh
