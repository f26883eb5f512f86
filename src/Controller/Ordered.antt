-- ===== src/Controller/Ordered.antt =====
-- Which record each call of a controller waits for.
use simmis.Prelude.{
  list_beq_iff, ◌≡◌, refl, sym, subst, Bool, true, false, ◌||◌, List, [], ◌∷◌, list_eq, nat_eq,
  list_beq, ◌==◌, Result, ok, err, All, Bool-cases, ◌⊎◌, inl, inr, arith,
}
use simmis.Program.Triple.{Triple, Keeps}
use simmis.Controller.Calls.{
  writing, waiting, finish, Call, Reply, Entry, World, call, request, begin, prepare, capture,
  admit, seal, load, acknowledge, release, launch_unit,
}
use simmis.Controller.Order.{is_inquiry, is_plain, IsLogged, On, Triple-call}
use simmis.Controller.Steps.{go, is_some}
use simmis.Value.{Text, text, Value, str, index}

-- What a call that returned has shown of a Run, or put on record for it.
pub data Fact : Type 0 where
  -- this is the Run's launch record
  prepared : Value → Fact
  -- a unit has this identity
  captured : Value → Fact
  -- the Run's unit is admitted under this identity
  admitted : Value → Fact
  -- the wait for the unit of this identity, the first, to stop has given this observation
  waited : Value → Value → Fact
  -- the Run's stop is on record
  sealed : Fact

-- A tool that ends the Run for the server.
unfoldable pub is_final : Text → Bool
unfolding list_beq
is_final tool = tool == text "simmis_worker-complete" || tool == text "simmis_worker-stop"

module _ (run : Text) where
  unfoldable pub Grants : Fact → (c : Call) → Result (Reply c) → Type 0
  unfolding is_some
  Grants (prepared launch) (prepare r ticket frozen sci) (ok v) = (r ≡ run) × (v ≡ launch)
  Grants (captured identity) (capture name) (ok v) = v ≡ identity
  Grants (admitted identity) (admit r i) (ok u) = (r ≡ run) × (i ≡ identity)
  Grants (waited identity observation) (finish (waiting i)) (ok v) =
      (i ≡ identity) × (v ≡ observation)
  Grants sealed (seal r observation output) (ok v) = r ≡ run
  Grants sealed (load r) (ok chain) = (r ≡ run) × (is_some chain.stopped ≡ true)
  Grants _ _ _ = ⊥

  unfoldable pub Holds : Fact → List Entry → Type 0
  unfolding Grants
  Holds f [] = ⊥
  Holds f (e ∷ log) = Grants f e.call e.reply ⊎ Holds f log

  -- What a call waits for: a unit is launched under the name in the Run's launch record, GO is sent
  -- after the Run is admitted under an identity that was captured, the stop is put on record for this
  -- Run with what a wait for the unit has observed, and a unit is released and the server told of
  -- this Run only after its stop is on record.
  unfoldable pub Needs : Call → List Entry → Type 0
  unfolding Holds is_final index
  Needs (launch_unit name timeout sci) log =
      (launch : Value) × (index launch (text "unit") ≡ ok name) × Holds (prepared launch) log
  Needs (begin (writing bytes deadline)) log =
      bytes == go ≡ true
      → (identity : Value) × Holds (captured identity) log × Holds (admitted identity) log
  Needs (request tool arguments) log =
      is_final tool ≡ true → (index arguments (text "run") ≡ ok (str run)) × Holds sealed log
  Needs (seal r observation output) log =
      (r ≡ run) × ((identity : Value) × Holds (waited identity observation) log)
  Needs (release identity) log = Holds sealed log
  Needs (acknowledge r outcome receipt) log = (r ≡ run) × Holds sealed log
  Needs _ log = Unit {0}

  -- No call came before what it waits for.
  unfoldable pub IsOrdered : List Entry → Type 0
  unfolding Needs
  IsOrdered [] = Unit {0}
  IsOrdered (e ∷ log) = Needs e.call log × IsOrdered log

  pub record Has (facts : List Fact) (log : List Entry) : Type 0 where
    pub ordered : IsOrdered log
    pub held : All (λ f. Holds f log) facts

inquiry-is_final : (tool : Text) → is_inquiry tool ≡ true → is_final tool ≡ false
unfolding is_inquiry is_final list_beq
inquiry-is_final tool h = elim (Bool-cases (tool == text "simmis_worker-input")) [
  | inl e ↦
      subst (λ (t : Text). is_final t ≡ false)
        (sym ((list_beq_iff tool (text "simmis_worker-input")).0 e)) refl
  | inr e ↦
      subst (λ (t : Text). is_final t ≡ false)
        (sym ((list_beq_iff tool (text "simmis_worker-heartbeat")).0 (ground arith))) refl
]

module _ (run : Text) where
  plain-Needs : (c : Call) (log : List Entry) → is_plain c ≡ true → Needs run c log
  unfolding is_plain Needs
  plain-Needs (request tool arguments) log h = λ t. let n = inquiry-is_final tool h in cc
  plain-Needs (begin (writing bytes deadline)) log h = cc
  plain-Needs (launch_unit name timeout sci) log h = cc
  plain-Needs (seal r observation output) log h = cc
  plain-Needs (release identity) log h = cc
  plain-Needs (acknowledge r outcome receipt) log h = cc
  plain-Needs _ log h = tt

  All-kept :
      (e : Entry) (log : List Entry) (fs : List Fact)
      → All (λ f. Holds run f log) fs
      → All (λ f. Holds run f (e ∷ log)) fs
  unfolding Holds
  All-kept e log [] h = tt
  All-kept e log (f ∷ fs) h = (inr h.0, All-kept e log fs h.1)

  -- A call whose need is met.
  Has-next :
      (fs : List Fact) (e : Entry) (log : List Entry)
      → Needs run e.call log
      → Has run fs log
      → Has run fs (e ∷ log)
  unfolding IsOrdered
  Has-next fs e log n h = record { ordered = (n, h.ordered); held = All-kept e log fs h.held }

  pub Has-logged : (fs : List Fact) → IsLogged (Has run fs)
  Has-logged fs = record {
    plain = λ c r log p h. Has-next fs (record { call = c; reply = r }) log (plain-Needs c log p) h;
  }

  pub Has-forget : (fs : List Fact) (log : List Entry) → Has run fs log → Has run [] log
  Has-forget fs log h = record { ordered = h.ordered; held = tt }

  module _ {W : Type 0} (world : World W) where
    -- A call whose need is among what holds.
    pub Keeps-needed :
        (fs : List Fact) (c : Call)
        → ((log : List Entry) → Has run fs log → Needs run c log)
        → Keeps (On (Has run fs)) (call world c)
    Keeps-needed fs c n =
        Triple-call world c (Has run fs) (λ _. Has run fs) (Has run fs)
          (λ r log p. Has-next fs (record { call = c; reply = ok r }) log (n log p) p)
          (λ x log p. Has-next fs (record { call = c; reply = err x }) log (n log p) p)

    -- What a call whose need is met shows, or puts on record.
    pub Triple-Grants_needed :
        (fs : List Fact) (c : Call) (f : Reply c → Fact)
        → ((log : List Entry) → Has run fs log → Needs run c log)
        → ((v : Reply c) → Grants run (f v) c (ok v))
        → Triple (On (Has run fs)) (call world c) (λ v. On (Has run (f v ∷ fs))) (On (Has run []))
    unfolding Holds
    Triple-Grants_needed fs c f n g =
        Triple-call world c (Has run fs) (λ v. Has run (f v ∷ fs)) (Has run [])
          (λ v log p.
            let q = Has-next fs (record { call = c; reply = ok v }) log (n log p) p in
            record { ordered = q.ordered; held = (inl (g v), q.held) })
          (λ x log p.
            Has-forget fs (record { call = c; reply = err x } ∷ log)
              (Has-next fs (record { call = c; reply = err x }) log (n log p) p))

    -- What a call that waits for nothing shows, or puts on record.
    pub Triple-Grants :
        (fs : List Fact) (c : Call) (f : Reply c → Fact)
        → is_plain c ≡ true
        → ((v : Reply c) → Grants run (f v) c (ok v))
        → Triple (On (Has run fs)) (call world c) (λ v. On (Has run (f v ∷ fs))) (On (Has run []))
    Triple-Grants fs c f e g = Triple-Grants_needed fs c f (λ log _. plain-Needs c log e) g

    -- A chain that was loaded says whether the stop is on record.
    pub Triple-load :
        (fs : List Fact)
        → Triple
            (On (Has run fs))
            (call world (load run))
            (λ chain.
              On (λ log. Has run fs log × (is_some chain.stopped ≡ true → Holds run sealed log)))
            (On (Has run []))
    unfolding Holds Grants is_plain
    Triple-load fs =
        Triple-call world (load run) (Has run fs)
          (λ chain log. Has run fs log × (is_some chain.stopped ≡ true → Holds run sealed log))
          (Has run [])
          (λ v log p. ((Has-logged fs).plain (load run) (ok v) log refl p, λ e. inl (refl, e)))
          (λ x log p.
            Has-forget fs (record { call = load run; reply = err x } ∷ log)
              ((Has-logged fs).plain (load run) (err x) log refl p))
