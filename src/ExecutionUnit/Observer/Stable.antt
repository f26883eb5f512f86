-- ===== src/ExecutionUnit/Observer/Stable.antt =====
-- What every method keeps, from what the few changes of an observer's sets keep.
use simmis.Prelude.{
  ◌==◌, list_eq, nat_eq, refl, sym, subst, ◌∙◌, ok-injective, ◌≡◌, true, false, contains, Result,
  ok, err,
}
use simmis.Value.Equality.{value_eq}
use simmis.ExecutionUnit.Observer.{index, text, text_of, Value, Observer, Machine, step, ask}
use simmis.Program.Triple.{
  Triple-ensure_bind, Triple-lift_bind, Triple-ensure, Triple-mono, Triple, Keeps, Outcome,
  Triple-lift, Triple-get, Triple-bind,
}
use simmis.ExecutionUnit.{validate_identity}
use simmis.ExecutionUnit.Observer.Methods.{same_invocation, snapshot, properties, check}
use simmis.ExecutionUnit.Bus.{ServiceProperties, UnitProperties, Bus}
use simmis.Program.{ensure, M, ◌>>=◌, lift, get}
use simmis.Host.{Host}
use simmis.Outputs.{discard, add}
use simmis.Value.{Text}

-- `P` of the sets holds between methods, and `Started n` while the exposure of `n` is unanswered.
pub record IsStable (P : Observer → Type 0) (Started : Text → Observer → Type 0) : Type 0 where
  pub begin :
      (n : Text) (o : Observer)
      → contains o.references n ≡ false
      → P o
      → Started n (record o { references = add n o.references })
  pub unanswered : (n : Text) (o : Observer) → Started n o → P o
  pub launched :
      (n : Text) (o : Observer)
      → Started n o
      → P (record o { confirmed = add n o.confirmed; launched = add n o.launched })
  pub attached :
      (n : Text) (o : Observer) → Started n o → P (record o { confirmed = add n o.confirmed })
  pub dropped :
      (n : Text) (o : Observer)
      → contains o.confirmed n ≡ true
      → P o
      → P (record o {
        references = discard n o.references;
        confirmed = discard n o.confirmed;
        launched = discard n o.launched;
      })

-- `n` is confirmed, and `P` holds.
abbrev pub WithConfirmed : (Observer → Type 0) → Text → Observer → Type 0
WithConfirmed P n o = P o × (contains o.confirmed n ≡ true)

-- The unit that an observed identity names is confirmed, and `P` holds.
abbrev pub Seen : (Observer → Type 0) → Value → Observer → Type 0
Seen P identity o =
    P o
    × ((name : Text) → text_of identity (text "unit") ≡ ok name → contains o.confirmed name ≡ true)

module _ {W : Type 0} where
  -- A property of the observer alone is kept by whatever the world does.
  abbrev pub On : (Observer → Type 0) → Machine W → Type 0
  On P s = P s.observer

  pub Keeps-ask : {A : Type 0} (P : Observer → Type 0) (m : M W A) → Keeps (On P) (ask m)
  Keeps-ask P m = record { runs = λ s p. asked P (m s.world) s p }
    where
      asked :
          {A : Type 0} (P : Observer → Type 0) (r : Result A × W) (s : Machine W)
          → On P s
          → Outcome (λ _. On P) (On P) (step r s)
      asked P (ok a, w) s p = p
      asked P (err e, w) s p = p

  pub Keeps-lift : {A : Type 0} (P : Machine W → Type 0) (r : Result A) → Keeps P (lift r)
  Keeps-lift P r = Triple-lift r (λ a s e p. p) (λ x s e p. p)

  pub Keeps-bind :
      {A B : Type 0} (P : Machine W → Type 0) (m : M (Machine W) A) (next : A → M (Machine W) B)
      → Keeps P m
      → ((a : A) → Keeps P (next a))
      → Keeps P (m >>= next)
  Keeps-bind P m next t u = Triple-bind m next t u

  pub Keeps-get : {A : Type 0} (P : Machine W → Type 0) (f : Machine W → A) → Keeps P (get f)
  Keeps-get P f = Triple-get f (λ s p. p)

  pub after_reading :
      (P : Observer → Type 0) (name : Text) {A : Type 0} (m : M (Machine W) A)
      → Keeps (On (WithConfirmed P name)) m
      → Triple (On (WithConfirmed P name)) m (λ _. On (WithConfirmed P name)) (On P)
  after_reading P name m k = Triple-mono m (λ s p. p) (λ a s p. p) (λ s p. p.0) k

module _ (host : Host) {W : Type 0} (bus : Bus W) where
  same_invocation-Keeps :
      (P : Observer → Type 0) (identity : Value) (p : UnitProperties × ServiceProperties)
      → Keeps (On P) (same_invocation host bus identity p)
  unfolding same_invocation
  same_invocation-Keeps P identity p = search (Keeps-lift, Keeps-bind)

  pub check-Keeps : (P : Observer → Type 0) → Keeps (On P) (check host bus)
  unfolding check
  check-Keeps P = search (Keeps-ask, Keeps-lift, Keeps-bind, Keeps-get)

module _ (host : Host) {W : Type 0} (bus : Bus W) (P : Observer → Type 0) where
  -- A unit whose properties could be read is one that this connection has confirmed.
  pub properties-Confirmed :
      (name : Text)
      → Triple (On P) (properties host bus name) (λ _. On (WithConfirmed P name)) (On P)
  unfolding properties
  properties-Confirmed name = Triple-bind (check host bus) _ (check-Keeps host bus P) λ _.
      Triple-bind {Q = λ (o : Observer) s. On P s × (o ≡ s.observer)} (get (λ s. s.observer)) _
        (Triple-get (λ s. s.observer) (λ s p. (p, refl)))
        λ o.
          Triple-bind {Q = λ _. On (WithConfirmed P name)} (ensure (contains o.confirmed name)) _
            (Triple-ensure (contains o.confirmed name)
              (λ s e p. (p.0, subst (λ (x : Observer). contains x.confirmed name ≡ true) p.1 e))
              (λ s p. p.0))
            λ _.
              after_reading P name _
                (search (Keeps-ask, Keeps-lift, Keeps-bind, check-Keeps) depth 12)

  pub snapshot-Seen :
      (identity : Value)
      → Triple (On P) (snapshot host bus identity) (λ _. On (Seen P identity)) (On P)
  unfolding snapshot
  snapshot-Seen identity =
      Triple-lift_bind (validate_identity identity) _
        (λ _ _. Triple-bind (ask bus.boot_id) _ (Keeps-ask P bus.boot_id) λ boot.
          Triple-lift_bind (text_of identity (text "boot-id")) _
            (λ boot_id _.
              Triple-ensure_bind (boot == boot_id) _
                (λ _.
                  Triple-lift_bind (index identity (text "manager")) _
                    (λ manager _.
                      Triple-bind (get (λ s. s.observer)) _ (Keeps-get (On P) (λ s. s.observer))
                        λ o.
                          Triple-ensure_bind (value_eq host.floats manager o.manager_identity) _
                            (λ _.
                              Triple-lift_bind (text_of identity (text "unit")) _
                                (λ name e.
                                  Triple-bind (properties host bus name) _
                                    (properties-Confirmed name) λ p. seen name e p)
                                (λ s p. p))
                            (λ s p. p))
                    (λ s p. p))
                (λ s p. p))
            (λ s p. p))
        (λ s p. p)
    where
      seen :
          (name : Text)
          → text_of identity (text "unit") ≡ ok name
          → (p : UnitProperties × ServiceProperties)
          → Triple
              (On (WithConfirmed P name))
              (same_invocation host bus identity p)
              (λ _. On (Seen P identity))
              (On P)
      seen name e p =
          Triple-mono (same_invocation host bus identity p) (λ s k. k)
            (λ a s k. (
              k.0,
              λ n e'.
                  subst (λ (m : Text). contains s.observer.confirmed m ≡ true)
                    (ok-injective (sym e ∙ e')) k.1,
            ))
            (λ s k. k.0) (same_invocation-Keeps host bus (WithConfirmed P name) identity p)

  pub properties-Keeps : (name : Text) → Keeps (On P) (properties host bus name)
  properties-Keeps name =
      Triple-mono (properties host bus name) (λ s p. p) (λ a s p. p.0) (λ s p. p)
        (properties-Confirmed name)

  pub snapshot-Keeps : (identity : Value) → Keeps (On P) (snapshot host bus identity)
  snapshot-Keeps identity =
      Triple-mono (snapshot host bus identity) (λ s p. p) (λ a s p. p.0) (λ s p. p)
        (snapshot-Seen identity)
