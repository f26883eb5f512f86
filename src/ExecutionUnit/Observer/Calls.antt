-- ===== src/ExecutionUnit/Observer/Calls.antt =====
-- Any sequence of calls of an observer's methods, by a caller that goes on after an exception.
use simmis.Prelude.{
  ℕ, ◌≡◌, refl, sym, ap, subst, ◌∙◌, true, false, List, [], ◌∷◌, Option, none, some, contains,
  list_eq, list_beq, nat_eq, ◌==◌, Result, ok, err, value_error, inl, inr, arith, ◌⊎◌, Error,
}
use simmis.ExecutionUnit.{validate_name}
use simmis.ExecutionUnit.Bus.{Bus}
use simmis.ExecutionUnit.Observer.{Observer, Machine, ask}
use simmis.ExecutionUnit.Observer.Methods.{
  launch, retain, capture, stop, abort_launch, wait_stopped, release, close,
}
use simmis.ExecutionUnit.Observer.Stable.{IsStable, On, Keeps-ask, Keeps-bind, Keeps-lift}
use simmis.ExecutionUnit.Observer.Kept.{
  capture-Keeps, stop-Keeps, abort_launch-Keeps, close-Keeps, wait_stopped-Seen,
}
use simmis.ExecutionUnit.Observer.Changed.{launch-Keeps, retain-Keeps, release-Keeps}
use simmis.ExecutionUnit.Observer.Sets.{IsConsistent, Exposing, IsConsistent-stable}
use simmis.ExecutionUnit.Observer.Held.{
  IsHeld, Beside, IsHeld-stable, IsExposed, IsExposed-IsHeld, launch-outcome,
}
use simmis.Host.{Host}
use simmis.Program.{M, ◌>>=◌, done}
use simmis.Program.Triple.{Keeps, Outcome, Triple-bind, Triple-lift}
use simmis.Value.{Text, Value}

pub data Call (W : Type 0) : Type 0 where
  launching : Value → ℕ × ℕ × ℕ → ℕ → List Text → Option (Result (List Text)) → Call W
  retaining : Value → Call W
  capturing : Value → Call W
  stopping : Value → Call W
  aborting : Value → Call W
  -- the timeout in seconds, and the caller's tick
  waiting : ℕ → Option (M W (Unit {0})) → Value → Call W
  releasing : Value → Call W
  closing : Call W

ticking : {W : Type 0} → Option (M W (Unit {0})) → Option (M (Machine W) (Unit {0}))
ticking none = none
ticking (some tick) = some (ask tick)

the_tick : {A : Type 0} → A → Option A → A
the_tick a none = a
the_tick a (some b) = b

module _ (host : Host) {W : Type 0} (bus : Bus W) where
  unfoldable pub perform : Call W → M (Machine W) (Unit {0})
  unfolding launch retain capture stop abort_launch wait_stopped release close ticking
  perform (launching n fds timeout_ms guard supervisor) =
      launch host bus n fds timeout_ms guard supervisor
  perform (retaining identity) = retain host bus identity
  perform (capturing n) = capture host bus n >>= λ _. done tt
  perform (stopping identity) = stop host bus identity
  perform (aborting n) = abort_launch host bus n
  perform (waiting seconds tick identity) =
      wait_stopped host bus seconds (ticking tick) identity >>= λ _. done tt
  perform (releasing identity) = release host bus identity
  perform closing = close host bus

  unfoldable pub run : List (Call W) → Machine W → Machine W
  unfolding perform
  run [] s = s
  run (c ∷ cs) s = run cs (perform c s).1

  module _ (P : Observer → Type 0) (Started : Text → Observer → Type 0)
      (stable : IsStable P Started) where
    ticking-Keeps :
        (tick : Option (M W (Unit {0}))) (t : M (Machine W) (Unit {0}))
        → ticking tick ≡ some t
        → Keeps (On P) t
    unfolding ticking the_tick
    ticking-Keeps none t e = ground arith
    ticking-Keeps (some tick) t e =
        subst (λ (m : M (Machine W) (Unit {0})). Keeps (On P) m) (ap (the_tick (ask tick)) e)
          (Keeps-ask P tick)

    perform-Keeps : (c : Call W) → Keeps (On P) (perform c)
    unfolding perform
    perform-Keeps (launching n fds timeout_ms guard supervisor) =
        launch-Keeps host bus P Started stable n fds timeout_ms guard supervisor
    perform-Keeps (retaining identity) = retain-Keeps host bus P Started stable identity
    perform-Keeps (capturing n) =
        Keeps-bind (On P) (capture host bus n) (λ _. done tt) (capture-Keeps host bus P n)
          (λ a. Keeps-lift (On P) (ok tt))
    perform-Keeps (stopping identity) = stop-Keeps host bus P identity
    perform-Keeps (aborting n) = abort_launch-Keeps host bus P n
    perform-Keeps (waiting seconds tick identity) =
        Triple-bind (wait_stopped host bus seconds (ticking tick) identity) (λ _. done tt)
          (wait_stopped-Seen host bus P seconds (ticking tick) identity (ticking-Keeps tick))
          (λ a. Triple-lift (ok tt) (λ _ s e p. p.0) (λ _ s e p. p.0))
    perform-Keeps (releasing identity) = release-Keeps host bus P Started stable identity
    perform-Keeps closing = close-Keeps host bus P

    after : {A : Type 0} (r : Result A × Machine W) → Outcome (λ _. On P) (On P) r → On P r.1
    after (ok a, s) p = p
    after (err e, s) p = p

    pub run-Keeps : (cs : List (Call W)) (s : Machine W) → On P s → On P (run cs s)
    unfolding run
    run-Keeps [] s p = p
    run-Keeps (c ∷ cs) s p =
        run-Keeps cs (perform c s).1 (after (perform c s) ((perform-Keeps c).runs s p))

  -- Of consistent sets, whatever is called in whatever order, and whatever raises: a confirmed name is a reference, and a
  -- launched one is confirmed.
  pub run-IsConsistent :
      (cs : List (Call W)) (s : Machine W)
      → IsConsistent s.observer
      → IsConsistent (run cs s).observer
  run-IsConsistent cs s c = run-Keeps IsConsistent Exposing IsConsistent-stable cs s c

  close-IsHeld :
      (name : Text) (s : Machine W)
      → IsHeld name s.observer
      → close host bus s ≡ (err value_error, s)
  unfolding close contains list_beq
  close-IsHeld name s h = rw (referenced s.observer.references h.referenced) refl
    where
      referenced : (names : List Text) → contains names name ≡ true → (names == []) ≡ false
      referenced [] h = sym h
      referenced (n ∷ names) h = refl

  IsExposed-of :
      (before : Observer) (name : Text) (o : Observer)
      → contains before.references name ≡ false
      → contains o.references name ≡ true
      → (o ≡ before) ⊎ IsExposed before name o
      → IsExposed before name o
  IsExposed-of before name o f h (inl same) =
      let e = subst (λ (x : Observer). contains x.references name ≡ true) same h in
      let e' = sym f ∙ e in ground arith
  IsExposed-of before name o f h (inr x) = x

  raised :
      (P Q : Machine W → Type 0) (r : Result (Unit {0}) × Machine W) {e : Error}
      → r.0 ≡ err e
      → Outcome (λ _. P) Q r
      → Q r.1
  raised P Q (ok a, s) h p = let h' = h in ground arith
  raised P Q (err e, s) h p = p

  -- Where a launch of a valid name that was no reference, by an observer whose sets are consistent,
  -- raises and leaves the name a reference, as when the answer of the manager is lost, it stays a
  -- reference that is neither confirmed nor launched, whatever is called afterwards, and the observer
  -- refuses to close, without an effect.
  pub lost_launch-IsHeld :
      (s : Machine W) (n : Value) (name : Text) (fds : ℕ × ℕ × ℕ) (timeout_ms : ℕ)
      (guard : List Text) (supervisor : Option (Result (List Text))) {e : Error}
      (cs : List (Call W))
      → validate_name n ≡ ok name
      → IsConsistent s.observer
      → contains s.observer.references name ≡ false
      → let r = launch host bus n fds timeout_ms guard supervisor s in
        r.0 ≡ err e
        → contains r.1.observer.references name ≡ true
        → let s' = run cs r.1 in
          IsHeld name s'.observer × (close host bus s' ≡ (err value_error, s'))
  lost_launch-IsHeld s n name fds timeout_ms guard supervisor cs named c fresh failed there =
      let r = launch host bus n fds timeout_ms guard supervisor s in
      let out = raised _ _ r failed (
        (launch-outcome host bus s.observer n name fds timeout_ms guard supervisor named).runs s
          refl) in
      let exposed = IsExposed-of s.observer name r.1.observer fresh there out in
      let held =
        run-Keeps (IsHeld name) (Beside name) (IsHeld-stable name) cs r.1
          (IsExposed-IsHeld s.observer name r.1.observer c exposed) in
      (held, close-IsHeld name (run cs r.1) held)
