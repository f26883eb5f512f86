-- ===== src/ExecutionUnit/Observer/Changed.antt =====
-- Stable properties of the sets and the methods that change them.
use simmis.Prelude.{
  ℕ, ◌≡◌, refl, sym, ap, subst, ◌∙◌, Bool, true, false, ◌&&◌, not, not-eq-true, List, Option, none,
  contains, list_eq, nat_eq, Result, ok, err, arith,
}
use simmis.Program.{continue, M, ◌>>=◌, lift, get}
use simmis.ExecutionUnit.Observer.Stable.{
  WithConfirmed, IsStable, On, Keeps-ask, check-Keeps, snapshot-Keeps,
}
use simmis.Program.Triple.{
  Triple, Keeps, Outcome, Triple-lift, Triple-get, Triple-bind, Triple-modify, Triple-lift_bind,
  Triple-ensure_bind, Triple-mono,
}
use simmis.ExecutionUnit.{validate_identity}
use simmis.ExecutionUnit.Bus.{Bus}
use simmis.ExecutionUnit.Observer.{Observer, Machine, remove, text_of, ask, change}
use simmis.ExecutionUnit.Observer.Methods.{
  check, launch, snapshot, attach, retain, wait_stopped, release,
}
use simmis.ExecutionUnit.Observer.Kept.{wait_stopped-Seen}
use simmis.Host.{Host}
use simmis.Outputs.{discard, add}
use simmis.Value.{Text, text, Value}
use simmis.ExecutionUnit.Observer.Exposed.{weaker, Fresh, record_launch, launch-Triple}

remove-eq :
    (n : Text) (names : List Text) {left : List Text}
    → remove n names ≡ ok left
    → left ≡ discard n names
unfolding remove
remove-eq n names h = ground arith

remove-there :
    (n : Text) (names : List Text) → contains names n ≡ true → remove n names ≡ ok (discard n names)
unfolding remove
remove-there n names h = rw h refl

module _ (host : Host) {W : Type 0} (bus : Bus W) (P : Observer → Type 0)
    (Started : Text → Observer → Type 0) (stable : IsStable P Started) where
  exposing :
      (n : Text)
      → Triple
          (On (Fresh P n))
          (change {W = W} (λ o. record o { references = add n o.references }))
          (λ _. On (Started n))
          (On P)
  exposing n = Triple-modify _ (λ s p. stable.begin n s.observer (not-eq-true p.1) p.0)

  -- The call that exposes a unit leaves its answer open where it raises.
  calling :
      (n : Text) (m : M W (Unit {0})) → Triple (On (Started n)) (ask m) (λ _. On (Started n)) (On P)
  calling n m = weaker (Started n) P (ask m) (stable.unanswered n) (Keeps-ask (Started n) m)

  -- The reference is recorded first, then the manager is asked, then its answer is recorded.
  exposed :
      (n : Text) (m : M W (Unit {0})) (answered : M (Machine W) (Unit {0}))
      → Triple (On (Started n)) answered (λ _. On P) (On P)
      → Triple
          (On (Fresh P n))
          (change (λ o. record o { references = add n o.references }) >>= λ _.
            ask m >>= λ _. answered)
          (λ _. On P)
          (On P)
  exposed n m answered t =
      Triple-bind (change _) _ (exposing n)
        λ _. Triple-bind (ask m) (λ _. answered) (calling n m) λ _. t

  launching :
      (n : Text)
      → Triple
          (On (Started n))
          (change {W = W}
            (λ o. record o { confirmed = add n o.confirmed; launched = add n o.launched }))
          (λ _. On P)
          (On P)
  launching n = Triple-modify _ (λ s p. stable.launched n s.observer p)

  attaching :
      (n : Text)
      → Triple
          (On (Started n))
          (change {W = W} (λ o. record o { confirmed = add n o.confirmed }))
          (λ _. On P)
          (On P)
  attaching n = Triple-modify _ (λ s p. stable.attached n s.observer p)

  pub launch-Keeps :
      (n : Value) (fds : ℕ × ℕ × ℕ) (timeout_ms : ℕ) (guard : List Text)
      (supervisor : Option (Result (List Text)))
      → Keeps (On P) (launch host bus n fds timeout_ms guard supervisor)
  launch-Keeps n fds timeout_ms guard supervisor =
      launch-Triple host bus P P P n fds timeout_ms guard supervisor (λ o p. p)
        (λ name _ m. exposed name m (record_launch name) (launching name))

  attach-Keeps :
      (b : Bool) (name : Text)
      → Triple
          (On (λ o. P o × (contains o.references name ≡ b)))
          (attach host bus b name)
          (λ _. On P)
          (On P)
  unfolding attach
  attach-Keeps true name = Triple-lift (ok tt) (λ a s e k. k.0) (λ x s e k. k.0)
  attach-Keeps false name =
      Triple-mono _ (λ s p. (p.0, ap not p.1)) (λ a s p. p) (λ s p. p)
        (exposed name (bus.ref_unit name) (change _) (attaching name))

  attach_seen :
      (o : Observer) (name : Text)
      → Triple
          (λ s. On P s × (o ≡ s.observer))
          (attach host bus (contains o.references name) name)
          (λ _. On P)
          (On P)
  attach_seen o name =
      Triple-mono (attach host bus (contains o.references name) name)
        (λ s p. (p.0, ap (λ (x : Observer). contains x.references name) (sym p.1))) (λ a s p. p)
        (λ s p. p) (attach-Keeps (contains o.references name) name)

  pub retain-Keeps : (identity : Value) → Keeps (On P) (retain host bus identity)
  unfolding retain
  retain-Keeps identity =
      Triple-lift_bind (validate_identity identity) _
        (λ _ _. Triple-bind (check host bus) _ (check-Keeps host bus P) λ _.
          Triple-lift_bind (text_of identity (text "unit")) _
            (λ name _.
              Triple-bind {Q = λ (o : Observer) s. On P s × (o ≡ s.observer)}
                (get (λ s. s.observer)) _ (Triple-get (λ s. s.observer) (λ s p. (p, refl)))
                λ o.
                  Triple-ensure_bind
                    (not (contains o.references name && not (contains o.confirmed name))) _
                    (λ _.
                      Triple-bind (attach host bus (contains o.references name) name) _
                        (attach_seen o name)
                        λ _.
                          Triple-bind (snapshot host bus identity) _
                            (snapshot-Keeps host bus P identity)
                            λ _. Triple-lift (ok tt) (λ a s e k. k) (λ x s e k. k))
                    (λ s p. p.0))
            (λ s p. p))
        (λ s p. p)

  -- The end of `release`.
  abbrev forget : Text → M (Machine W) (Unit {0})
  forget name = get (λ s. s.observer) >>= λ o. lift (remove name o.references) >>= λ references.
      change (λ x. record x { references = references }) >>= λ _.
      lift (remove name o.confirmed) >>= λ confirmed.
      change (λ x. record x { confirmed = confirmed; launched = discard name x.launched })

  forgotten :
      (name : Text) (s : Machine W)
      → On (WithConfirmed P name) s
      → (r t : Result (List Text)) → remove name s.observer.references ≡ r
      → remove name s.observer.confirmed ≡ t
      → Outcome
          (λ _. On P)
          (On P)
          (continue
            (r, s)
            λ references. change (λ x. record x { references = references }) >>= λ _.
              lift t >>= λ confirmed.
              change (λ x. record x { confirmed = confirmed; launched = discard name x.launched }))
  forgotten name s p (err e) t h k = p.0
  forgotten name s p (ok left) (err e) h k =
      let e' = sym (remove-there name s.observer.confirmed p.1) ∙ k in ground arith
  forgotten name s p (ok left) (ok rest) h k =
      subst
        (λ (names : List Text). P (record s.observer {
          references = names;
          confirmed = rest;
          launched = discard name s.observer.launched;
        }))
        (sym (remove-eq name s.observer.references h))
        (subst
          (λ (names : List Text). P (record s.observer {
            references = discard name s.observer.references;
            confirmed = names;
            launched = discard name s.observer.launched;
          }))
          (sym (remove-eq name s.observer.confirmed k)) (stable.dropped name s.observer p.1 p.0))

  forget-Keeps : (name : Text) → Triple (On (WithConfirmed P name)) (forget name) (λ _. On P) (On P)
  forget-Keeps name = record { runs = λ s p. forgotten name s p _ _ refl refl }

  pub release-Keeps : (identity : Value) → Keeps (On P) (release host bus identity)
  unfolding release
  release-Keeps identity =
      Triple-bind (wait_stopped host bus 1 none identity) _
        (wait_stopped-Seen host bus P 1 none identity (λ tick e. ground arith))
        λ _.
          Triple-lift_bind (text_of identity (text "unit")) _
            (λ name e.
              Triple-bind {Q = λ _. On (WithConfirmed P name)} (ask (bus.unref_unit name)) _
                (Triple-mono (ask (bus.unref_unit name)) (λ s p. (p.0, p.1 name e)) (λ a s p. p)
                  (λ s p. p.0) (Keeps-ask (WithConfirmed P name) (bus.unref_unit name)))
                λ _. forget-Keeps name)
            (λ s p. p.0)
