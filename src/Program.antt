-- ===== src/Program.antt =====
-- Python methods that raise and change state: a state is passed on, also by an exception.
pub mod Triple
pub mod Ends
use simmis.Prelude.{Bool, true, false, Error, Result, ok, err, require}

abbrev pub M : Type 0 → Type 0 → Type 0
M S A = S → Result A × S

abbrev pub continue : {S A B : Type 0} → Result A × S → (A → M S B) → Result B × S
continue (ok a, s) next = next a s
continue (err e, s) next = (err e, s)

infixl 5 ◌>>=◌ ◌>>◌
abbrev pub ◌>>=◌ : {S A B : Type 0} → M S A → (A → M S B) → M S B
◌>>=◌ m next s = continue (m s) next

abbrev pub ◌>>◌ : {S B : Type 0} → M S (Unit {0}) → M S B → M S B
m >> next = m >>= λ _. next

abbrev pub lift : {S A : Type 0} → Result A → M S A
lift r s = (r, s)

abbrev pub done : {S A : Type 0} → A → M S A
done a = lift (ok a)

abbrev pub raise : {S A : Type 0} → Error → M S A
raise e = lift (err e)

-- `if not test: raise ValueError`
abbrev pub ensure : {S : Type 0} → Bool → M S (Unit {0})
ensure test = lift (require test)

abbrev pub get : {S A : Type 0} → (S → A) → M S A
get f s = (ok (f s), s)

abbrev pub modify : {S : Type 0} → (S → S) → M S (Unit {0})
modify f s = (ok tt, f s)

-- `try`: the exception becomes a value.
abbrev pub caught : {S A : Type 0} → Result A × S → Result (Result A) × S
caught (r, s) = (ok r, s)

abbrev pub attempt : {S A : Type 0} → M S A → M S (Result A)
attempt m s = caught (m s)

-- `if test: m`
abbrev pub when : {S : Type 0} → Bool → M S (Unit {0}) → M S (Unit {0})
when true m = m
when false m = done tt

-- `try: m` with `finally: end`
abbrev pub finally : {S A : Type 0} → M S A → M S (Unit {0}) → M S A
finally m end = attempt m >>= λ r. end >> lift r

-- `with`: what was entered is left on every path.
abbrev pub within : {S A : Type 0} → M S (Unit {0}) → M S (Unit {0}) → M S A → M S A
within enter leave body = enter >> finally body leave
