-- ===== src/Program/Ends.antt =====
-- Programs that end: what holds where they return, and that they do not run out of fuel.
use simmis.Prelude.{◌≡◌, ◌≢◌, refl, Result, ok, err, out_of_fuel}
use simmis.Program.{M, continue, ◌>>=◌, lift, get, modify}

abbrev pub Ended : {S A : Type 0} → (A → S → Type 0) → Result A × S → Type 0
Ended Q (ok a, s) = Q a s
Ended Q (err e, s) = e ≢ out_of_fuel

pub record Ends {S A : Type 0} (P : S → Type 0) (m : M S A) (Q : A → S → Type 0) : Type 0 where
  pub runs : (s : S) → P s → Ended Q (m s)

module _ {S A : Type 0} {P : S → Type 0} {Q : A → S → Type 0} where
  pub Ends-bind :
      {B : Type 0} {Q' : B → S → Type 0} (m : M S A) (next : A → M S B)
      → Ends P m Q
      → ((a : A) → Ends (Q a) (next a) Q')
      → Ends P (m >>= next) Q'
  Ends-bind {B = B} {Q' = Q'} m next t u = record { runs = λ s p. both (m s) (t.runs s p) }
    where
      both : (o : Result A × S) → Ended Q o → Ended Q' (continue o next)
      both (ok a, s) q = (u a).runs s q
      both (err e, s) q = q

  pub Ends-lift :
      (r : Result A) → r ≢ err out_of_fuel → ((a : A) (s : S) → P s → Q a s) → Ends P (lift r) Q
  Ends-lift (ok a) n q = record { runs = q a }
  Ends-lift (err x) n q = record { runs = λ s p e. n (cc) }

  pub Ends-mono :
      {P' : S → Type 0} {Q' : A → S → Type 0} (m : M S A)
      → ((s : S) → P' s → P s)
      → ((a : A) (s : S) → Q a s → Q' a s)
      → Ends P m Q
      → Ends P' m Q'
  Ends-mono {Q' = Q'} m p q t = record { runs = λ s h. mono (m s) (t.runs s (p s h)) }
    where
      mono : (o : Result A × S) → Ended Q o → Ended Q' o
      mono (ok a, s) h = q a s h
      mono (err e, s) h = h

pub Ends-get : {S A : Type 0} {P : S → Type 0} (f : S → A) → Ends P (get f) (λ a s. P s × (a ≡ f s))
Ends-get f = record { runs = λ s p. (p, refl) }

pub Ends-modify :
    {S : Type 0} {P : S → Type 0} {Q : Unit {0} → S → Type 0} (f : S → S)
    → ((s : S) → P s → Q tt (f s))
    → Ends P (modify f) Q
Ends-modify f q = record { runs = q }
