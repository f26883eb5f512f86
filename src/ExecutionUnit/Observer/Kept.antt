-- ===== src/ExecutionUnit/Observer/Kept.antt =====
-- Stable properties of the sets and every method of the observer.
use simmis.Prelude.{
  timeout_error, ℕ, ◌≡◌, refl, Bool, true, false, ◌&&◌, List, [], ◌∷◌, Option, none, some, list_eq,
  nat_eq, ok, err, leb, ltb,
}
use simmis.Program.{M}
use simmis.Program.Triple.{Triple, Keeps, Triple-lift, Triple-bind, Triple-ensure_bind, Triple-mono}
use simmis.ExecutionUnit.Bus.{Bus, ServiceProperties, Wake, woken, service_failed}
use simmis.ExecutionUnit.Observer.{Observer, Machine, ask}
use simmis.ExecutionUnit.Observer.Methods.{
  snapshot, capture, stop, abort_launch, conclude, conclude_if, check_empty, observe, next_round,
  last_round, wait_loop, first_tick, wait_stopped, close,
}
use simmis.ExecutionUnit.Observer.Stable.{
  IsStable, On, Seen, WithConfirmed, Keeps-ask, Keeps-lift, Keeps-bind, Keeps-get, check-Keeps,
  properties-Keeps, snapshot-Keeps, snapshot-Seen,
}
use simmis.Host.{Host}
use simmis.Value.{Value}

pub ruleset kept =
    (Keeps-ask, Keeps-lift, Keeps-bind, Keeps-get, check-Keeps, properties-Keeps, snapshot-Keeps)

module _ (host : Host) {W : Type 0} (bus : Bus W) where
  pub capture-Keeps : (P : Observer → Type 0) (n : Value) → Keeps (On P) (capture host bus n)
  unfolding capture
  capture-Keeps P n = search kept depth 40 fits 2000

  pub stop-Keeps :
      (P : Observer → Type 0) (identity : Value) → Keeps (On P) (stop host bus identity)
  unfolding stop
  stop-Keeps P identity = search kept depth 12

  pub abort_launch-Keeps :
      (P : Observer → Type 0) (n : Value) → Keeps (On P) (abort_launch host bus n)
  unfolding abort_launch
  abort_launch-Keeps P n = search kept depth 16

  pub close-Keeps : (P : Observer → Type 0) → Keeps (On P) (close host bus)
  unfolding close
  close-Keeps P = search kept depth 12

  conclude-Keeps :
      (P : Observer → Type 0) (identity : Value) (service : ServiceProperties)
      → Keeps (On P) (conclude host bus identity service)
  unfolding conclude
  conclude-Keeps P identity service = search kept depth 16

  conclude_if-Keeps :
      (P : Observer → Type 0) (empty : Bool) (identity : Value) (service : ServiceProperties)
      → Keeps (On P) (conclude_if host bus empty identity service)
  unfolding conclude_if
  conclude_if-Keeps P true identity service = conclude-Keeps P identity service
  conclude_if-Keeps P false identity service = search kept

  check_empty-Keeps :
      (P : Observer → Type 0) (stopped : Bool) (identity : Value) (service : ServiceProperties)
      → Keeps (On P) (check_empty host bus stopped identity service)
  unfolding check_empty
  check_empty-Keeps P true identity service = search (kept, conclude_if-Keeps) depth 16
  check_empty-Keeps P false identity service = search kept

  -- Where a round observes a unit, it is a confirmed one.
  observe-Seen :
      (P : Observer → Type 0) (identity : Value)
      → Triple (On P) (observe host bus identity) (λ _. On (Seen P identity)) (On P)
  unfolding observe
  observe-Seen P identity =
      Triple-bind (snapshot host bus identity) _ (snapshot-Seen host bus P identity) λ p.
        Triple-mono (check_empty host bus _ identity p.1) (λ s k. k) (λ a s k. k) (λ s k. k.0)
          (check_empty-Keeps (Seen P identity) _ identity p.1)

  next_round-Seen :
      (P : Observer → Type 0) (identity : Value) (o : Option Value) (w : Wake)
      (rest : M (Machine W) Value)
      → Triple (On P) rest (λ _. On (Seen P identity)) (On P)
      → Triple
          (On (Seen P identity))
          (next_round host bus o w rest)
          (λ _. On (Seen P identity))
          (On P)
  unfolding next_round
  next_round-Seen P identity (some v) w rest t = Triple-lift (ok v) (λ a s e k. k) (λ x s e k. k.0)
  next_round-Seen P identity none (service_failed e) rest t =
      Triple-lift (err e) (λ a s e k. k) (λ x s e k. k.0)
  next_round-Seen P identity none woken rest t =
      Triple-mono rest (λ s k. k.0) (λ a s k. k) (λ s k. k) t

  last_round-Seen :
      (P : Observer → Type 0) (identity : Value) (o : Option Value)
      → Triple (On (Seen P identity)) (last_round host bus o) (λ _. On (Seen P identity)) (On P)
  unfolding last_round
  last_round-Seen P identity none = Triple-lift (err timeout_error) (λ a s e k. k) (λ x s e k. k.0)
  last_round-Seen P identity (some v) = Triple-lift (ok v) (λ a s e k. k) (λ x s e k. k.0)

  pub wait_loop-Seen :
      (P : Observer → Type 0) (identity : Value) (ws : List Wake)
      → Triple (On P) (wait_loop host bus identity ws) (λ _. On (Seen P identity)) (On P)
  unfolding wait_loop
  wait_loop-Seen P identity [] =
      Triple-bind (observe host bus identity) _ (observe-Seen P identity)
        (last_round-Seen P identity)
  wait_loop-Seen P identity (w ∷ ws) =
      Triple-bind (observe host bus identity) _ (observe-Seen P identity) λ o.
        next_round-Seen P identity o w (wait_loop host bus identity ws)
          (wait_loop-Seen P identity ws)

  first_tick-Keeps :
      (P : Observer → Type 0) (on_tick : Option (M (Machine W) (Unit {0})))
      → ((tick : M (Machine W) (Unit {0})) → on_tick ≡ some tick → Keeps (On P) tick)
      → Keeps (On P) (first_tick host bus on_tick)
  unfolding first_tick
  first_tick-Keeps P none k = search kept
  first_tick-Keeps P (some tick) k = k tick refl

  pub wait_stopped-Seen :
      (P : Observer → Type 0) (seconds : ℕ) (on_tick : Option (M (Machine W) (Unit {0})))
      (identity : Value)
      → ((tick : M (Machine W) (Unit {0})) → on_tick ≡ some tick → Keeps (On P) tick)
      → Triple
          (On P)
          (wait_stopped host bus seconds on_tick identity)
          (λ _. On (Seen P identity))
          (On P)
  unfolding wait_stopped
  wait_stopped-Seen P seconds on_tick identity k =
      Triple-ensure_bind (ltb 0 seconds && leb seconds 660) _
        (λ _. Triple-bind (first_tick host bus on_tick) _ (first_tick-Keeps P on_tick k) λ _.
          Triple-bind (ask (bus.wakes seconds)) _ (Keeps-ask P (bus.wakes seconds))
            (wait_loop-Seen P identity))
        (λ s p. p)
