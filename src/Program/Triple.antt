-- ===== src/Program/Triple.antt =====
-- Hoare triples: what holds after a program that starts in a state where `P` holds, `Q` of its result
-- where it returns and `R` where it raises.
use simmis.Prelude.{Error, ◌≡◌, refl, Bool, true, false, Result, ok, err, require}
use simmis.Program.{M, continue, ◌>>=◌, lift, get, modify}

abbrev pub Outcome : {S A : Type 0} → (A → S → Type 0) → (S → Type 0) → Result A × S → Type 0
Outcome Q R (ok a, s) = Q a s
Outcome Q R (err e, s) = R s

pub record Triple {S A : Type 0} (P : S → Type 0) (m : M S A) (Q : A → S → Type 0) (R : S → Type 0)
    : Type 0 where
  pub runs : (s : S) → P s → Outcome Q R (m s)

-- A property that holds before and after, whether or not the program raises.
abbrev pub Keeps : {S A : Type 0} → (S → Type 0) → M S A → Type 0
Keeps P m = Triple P m (λ _. P) P

Outcome-continue :
    {S A B : Type 0} {Q : A → S → Type 0} {Q' : B → S → Type 0} {R : S → Type 0} (o : Result A × S)
    (next : A → M S B)
    → Outcome Q R o
    → ((a : A) → Triple (Q a) (next a) Q' R)
    → Outcome Q' R (continue o next)
Outcome-continue (ok a, s) next q t = (t a).runs s q
Outcome-continue (err e, s) next r t = r

module _ {S A : Type 0} {P R : S → Type 0} {Q : A → S → Type 0} where
  pub Triple-lift :
      (r : Result A)
      → ((a : A) (s : S) → r ≡ ok a → P s → Q a s)
      → ((e : Error) (s : S) → r ≡ err e → P s → R s)
      → Triple P (lift r) Q R
  Triple-lift (ok a) q e = record { runs = λ s p. q a s refl p }
  Triple-lift (err x) q e = record { runs = λ s p. e x s refl p }

  pub Triple-get : (f : S → A) → ((s : S) → P s → Q (f s) s) → Triple P (get f) Q R
  Triple-get f q = record { runs = λ s p. q s p }

  pub Triple-bind :
      {B : Type 0} {Q' : B → S → Type 0} (m : M S A) (next : A → M S B)
      → Triple P m Q R
      → ((a : A) → Triple (Q a) (next a) Q' R)
      → Triple P (m >>= next) Q' R
  Triple-bind m next t u = record { runs = λ s p. Outcome-continue (m s) next (t.runs s p) u }

module _ {S : Type 0} {P R : S → Type 0} {Q : Unit {0} → S → Type 0} where
  pub Triple-modify : (f : S → S) → ((s : S) → P s → Q tt (f s)) → Triple P (modify f) Q R
  Triple-modify f q = record { runs = λ s p. q s p }

  -- A test that has passed is a fact for what follows.
  pub Triple-ensure :
      (t : Bool)
      → ((s : S) → t ≡ true → P s → Q tt s)
      → ((s : S) → P s → R s)
      → Triple P (lift (require t)) Q R
  Triple-ensure true q e = record { runs = λ s p. q s refl p }
  Triple-ensure false q e = record { runs = λ s p. e s p }

pub Outcome-mono :
    {S A : Type 0} {Q Q' : A → S → Type 0} {R R' : S → Type 0} (o : Result A × S)
    → ((a : A) (s : S) → Q a s → Q' a s)
    → ((s : S) → R s → R' s)
    → Outcome Q R o
    → Outcome Q' R' o
Outcome-mono (ok a, s) q r h = q a s h
Outcome-mono (err e, s) q r h = r s h

module _ {S A : Type 0} {P P' R R' : S → Type 0} {Q Q' : A → S → Type 0} where
  pub Triple-mono :
      (m : M S A)
      → ((s : S) → P' s → P s)
      → ((a : A) (s : S) → Q a s → Q' a s)
      → ((s : S) → R s → R' s)
      → Triple P m Q R
      → Triple P' m Q' R'
  Triple-mono m p q r t = record { runs = λ s h. Outcome-mono (m s) q r (t.runs s (p s h)) }

-- What a computation without effect has shown is known to what follows.
pub Triple-lift_bind :
    {S A B : Type 0} {P R : S → Type 0} {Q : B → S → Type 0} (r : Result A) (next : A → M S B)
    → ((a : A) → r ≡ ok a → Triple P (next a) Q R)
    → ((s : S) → P s → R s)
    → Triple P (lift r >>= next) Q R
Triple-lift_bind (ok a) next t e = record { runs = λ s p. (t a refl).runs s p }
Triple-lift_bind (err x) next t e = record { runs = λ s p. e s p }

pub Triple-ensure_bind :
    {S B : Type 0} {P R : S → Type 0} {Q : B → S → Type 0} (t : Bool) (next : M S B)
    → (t ≡ true → Triple P next Q R)
    → ((s : S) → P s → R s)
    → Triple P (lift (require t) >>= λ _. next) Q R
Triple-ensure_bind true next u e = record { runs = λ s p. (u refl).runs s p }
Triple-ensure_bind false next u e = record { runs = λ s p. e s p }
