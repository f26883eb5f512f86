-- ===== src/ExecutionUnit/Observer/Exposed.antt =====
-- A unit is exposed: what `launch` does is what the exposure of its name does.
use simmis.Prelude.{
  ℕ, ◌≡◌, refl, subst, Bool, true, ◌&&◌, not, List, Option, contains, list_eq, nat_eq, Result, ok,
  leb,
}
use simmis.Program.{M, ◌>>=◌, ensure, get}
use simmis.ExecutionUnit.Observer.Stable.{On, check-Keeps}
use simmis.Program.Triple.{
  Triple, Keeps, Triple-get, Triple-bind, Triple-ensure, Triple-lift_bind, Triple-ensure_bind,
  Triple-mono,
}
use simmis.ExecutionUnit.{validate_name}
use simmis.ExecutionUnit.Bus.{Bus}
use simmis.ExecutionUnit.Observer.{Observer, Machine, ask, change, transient_properties}
use simmis.ExecutionUnit.Observer.Methods.{check, command_for, launch}
use simmis.Host.{Host}
use simmis.Outputs.{add}
use simmis.Value.{Text, Value}

-- A test of the observer that has passed holds of the state.
pub tested :
    {W B : Type 0} (P : Observer → Type 0) {Q : B → Machine W → Type 0} {R : Machine W → Type 0}
    (test : Observer → Bool) (next : Observer → M (Machine W) B)
    → ((o : Observer) → Triple (On (λ o'. P o' × (test o' ≡ true))) (next o) Q R)
    → ((s : Machine W) → P s.observer → R s)
    → Triple (On P) (get (λ s. s.observer) >>= λ o. ensure (test o) >>= λ _. next o) Q R
tested P test next t e =
    Triple-bind {Q = λ (o : Observer) s. On P s × (o ≡ s.observer)} (get (λ s. s.observer)) _
      (Triple-get (λ s. s.observer) (λ s p. (p, refl)))
      λ o.
        Triple-bind {Q = λ _. On (λ o'. P o' × (test o' ≡ true))} (ensure (test o)) _
          (Triple-ensure (test o) (λ s h p. (p.0, subst (λ (x : Observer). test x ≡ true) p.1 h))
            (λ s p. e s p.0))
          λ _. t o

-- Where a kept property is more than what an error needs.
pub weaker :
    {W A : Type 0} (P' P : Observer → Type 0) (m : M (Machine W) A)
    → ((o : Observer) → P' o → P o)
    → Keeps (On P') m
    → Triple (On P') m (λ _. On P') (On P)
weaker P' P m w t = Triple-mono m (λ s p. p) (λ a s p. p) (λ s p. w s.observer p) t

-- A name that is no reference yet, and one that is a reference but not confirmed.
abbrev pub Fresh : (Observer → Type 0) → Text → Observer → Type 0
Fresh P n o = P o × (not (contains o.references n) ≡ true)

-- The reference is recorded first, then the manager is asked, then its answer is recorded.
abbrev pub expose :
    {W : Type 0} → Text → M W (Unit {0}) → M (Machine W) (Unit {0}) → M (Machine W) (Unit {0})
expose n m answered =
    change (λ o. record o { references = add n o.references }) >>= λ _. ask m >>= λ _. answered

abbrev pub record_launch : {W : Type 0} → Text → M (Machine W) (Unit {0})
record_launch n =
    change (λ o. record o { confirmed = add n o.confirmed; launched = add n o.launched })

-- What `launch` does is what the exposure of its name does.
pub launch-Triple :
    (host : Host) {W : Type 0} (bus : Bus W) (P Q R : Observer → Type 0) (n : Value)
    (fds : ℕ × ℕ × ℕ) (timeout_ms : ℕ) (guard : List Text)
    (supervisor : Option (Result (List Text)))
    → ((o : Observer) → P o → R o)
    → ((name : Text)
        → validate_name n ≡ ok name
        → (m : M W (Unit {0}))
        → Triple (On (Fresh P name)) (expose name m (record_launch name)) (λ _. On Q) (On R))
    → Triple (On P) (launch host bus n fds timeout_ms guard supervisor) (λ _. On Q) (On R)
unfolding launch
launch-Triple host bus P Q R n (stdin, stdout, stderr) timeout_ms guard supervisor w t =
    Triple-lift_bind (validate_name n) _
      (λ name e.
        tested P (λ o. not (contains o.references name)) _
          (λ o.
            Triple-ensure_bind (leb 1000 timeout_ms && leb timeout_ms 600000) _
              (λ _.
                Triple-bind (check host bus) _
                  (weaker (Fresh P name) R (check host bus) (λ o p. w o p.0)
                    (check-Keeps host bus (Fresh P name)))
                  λ _.
                    Triple-lift_bind (command_for host bus o.sci guard supervisor) _
                      (λ argv _. t name e (
                        bus.start_transient_unit name
                          (transient_properties o.sci stdin stdout stderr timeout_ms argv)))
                      (λ s p. w s.observer p.0))
              (λ s p. w s.observer p.0))
          (λ s p. w s.observer p))
      (λ s p. w s.observer p)
