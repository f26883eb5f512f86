-- ===== src/Prelude/Failure.antt =====
-- Python exceptions as values. Messages are left out: the callers only tell the classes apart.
use mathlib.Core.Logic.{◌⊎◌, inl, inr}
use mathlib.Core.Path.{ap, ◌≡◌, refl}
use mathlib.Core.Bool.{Bool, true, false}

-- `value_error` stands for ValueError and its subclasses (UnicodeError, binascii.Error,
-- JSONDecodeError); `out_of_fuel` is the model's own and stands for a loop that has not ended.
pub data Error : Type 0 where
  value_error key_error type_error os_error file_not_found file_exists timeout_error eof_error :
      Error
  cancelled runtime_error out_of_fuel : Error

pub data Result {ℓ} (A : Type ℓ) : Type ℓ where
  ok : A → Result A
  err : Error → Result A

infixl 5 ◌>>=◌ ◌>>◌
abbrev pub ◌>>=◌ {ℓ κ} : {A : Type ℓ} {B : Type κ} → Result A → (A → Result B) → Result B
ok x >>= next = next x
err e >>= next = err e

abbrev pub ◌>>◌ {ℓ} : {B : Type ℓ} → Result (Unit {0}) → Result B → Result B
m >> k = m >>= λ _. k

-- `if not test: raise ValueError`
abbrev pub require : Bool → Result (Unit {0})
require true = ok tt
require false = err value_error

abbrev from_ok {ℓ} : {A : Type ℓ} → A → Result A → A
from_ok d (ok a) = a
from_ok d (err e) = d

-- Inversion of a successful bind and of a passed test.
pub >>=-eq-ok {ℓ κ} :
    {A : Type ℓ} {B : Type κ} (m : Result A) (next : A → Result B) {y : B}
    → (m >>= next) ≡ ok y
    → (x : A) × (m ≡ ok x) × (next x ≡ ok y)
>>=-eq-ok (ok x) next h = (x, refl, h)
>>=-eq-ok (err e) next h = cc

pub require-eq-ok {ℓ} :
    {B : Type ℓ} (t : Bool) (k : Result B) {b : B}
    → (require t >> k) ≡ ok b
    → (t ≡ true) × (k ≡ ok b)
require-eq-ok true k h = (refl, h)
require-eq-ok false k h = cc

pub require-eq-ok_only : (t : Bool) {u : Unit {0}} → require t ≡ ok u → t ≡ true
require-eq-ok_only true h = refl
require-eq-ok_only false h = cc

pub Result-cases {ℓ} :
    {A : Type ℓ} (r : Result A) → ((a : A) × (r ≡ ok a)) ⊎ ((e : Error) × (r ≡ err e))
Result-cases (ok a) = inl (a, refl)
Result-cases (err e) = inr (e, refl)

pub ok-injective {ℓ} : {A : Type ℓ} {a b : A} → Result.ok a ≡ ok b → a ≡ b
ok-injective {a} h = ap (from_ok a) h

abbrev error_or {ℓ} : {A : Type ℓ} → Error → Result A → Error
error_or d (ok a) = d
error_or d (err e) = e

pub err-injective {ℓ} : {A : Type ℓ} {a b : Error} → ◌≡◌ {A = Result A} (err a) (err b) → a ≡ b
err-injective {a} h = ap (error_or a) h

-- A computation that fails, if at all, with a ValueError.
pub record Refuses {ℓ} {A : Type ℓ} (m : Result A) : Type ℓ where
  pub only : (e : Error) → m ≡ err e → e ≡ value_error

module _ {ℓ} {A : Type ℓ} where
  pub Refuses-ok : (a : A) → Refuses (ok a)
  Refuses-ok a = record { only = λ e h. cc }

  abbrev pub refused : Result A
  refused = err value_error

  pub Refuses-raise : Refuses refused
  Refuses-raise = record { only = λ e h. cc }

  pub Refuses-require :
      (t : Bool) (k : Result A) → (t ≡ true → Refuses k) → Refuses (require t >> k)
  Refuses-require true k h = h refl
  Refuses-require false k h = Refuses-raise

pub Refuses-bind {ℓ κ} :
    {A : Type ℓ} {B : Type κ} (m : Result A) (f : A → Result B)
    → Refuses m
    → ((a : A) → m ≡ ok a → Refuses (f a))
    → Refuses (m >>= f)
Refuses-bind (ok a) f hm hf = hf a refl
Refuses-bind (err e) f hm hf = record { only = λ e' h. hm.only e' (cc) }
