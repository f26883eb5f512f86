-- ===== src/Journal/Prepare.antt =====
-- `_owner` and `prepare`: the launch record, written before a unit is started.
use simmis.Prelude.{
  err, refl, ap, sym, subst, ◌∙◌, >>=-eq-ok, ok-injective, ◌≡◌, [], ◌∷◌, ◌++◌, Option, none, some,
  Result, ok, ◌>>=◌, ◌>>◌, pos,
}
use simmis.Journal.Publish.Published.{IsPublished, publish-IsPublished}
use simmis.Inputs.Validate.{validate-IsFrozen}
use simmis.Files.{Directory}
use simmis.Files.Laws.{Leaves}
use simmis.Journal.Publish.{staged_name}
use simmis.Host.{Host}
use simmis.Journal.Records.{launch}
use simmis.Journal.Validate.{validate_launch}
use simmis.Journal.Chain.{Chain, chain, publish_next}
use simmis.Value.{Text, text, Value, null, int, str, Dict, dict, index}
use simmis.Claim
use simmis.ExecutionUnit
use simmis.Inputs
use simmis.Namespace

-- `_owner`
unfoldable pub owner_of : Value → Result Value
unfolding Claim.validate index
owner_of ticket = do
  _ ← Claim.validate ticket
  worker ← index ticket (text "worker")
  run ← index ticket (text "run")
  nonce ← index ticket (text "nonce")
  ok (dict ((text "worker", worker) ∷ (text "run", run) ∷ (text "nonce", nonce) ∷ []))

-- previous["unit"] if previous else unit.unit_name(); `hex` is uuid.uuid4().hex.
unfoldable pub unit_of : Text → Option Value → Result Value
unfolding index
unit_of hex none = ok (str (text "simmis-worker-" ++ hex ++ text ".service"))
unit_of hex (some previous) = index previous (text "unit")

-- The policies, of the namespace guard or of a packaged runtime.
unfoldable pub policies_of : Option Value → Dict
policies_of none =
    (text "namespace-policy", Namespace.policy) ∷ (text "unit-policy", ExecutionUnit.policy) ∷ []
policies_of (some profile) =
    (text "execution-profile", profile) ∷ (text "unit-policy", ExecutionUnit.sci_policy) ∷ []

unfoldable pub version_of : Option Value → Value
version_of none = int (pos 1)
version_of (some profile) = int (pos 2)

unfoldable pub launch_value : Value → Value → Value → Value → Option Value → Value
unfolding policies_of version_of
launch_value owner endpoint unit frozen profile = dict (
    (text "version", version_of profile)
    ∷ (text "phase", str (text "launch"))
    ∷ (text "previous", null)
    ∷ (text "owner", owner)
    ∷ (text "endpoint", endpoint)
    ∷ (text "unit", unit)
    ∷ (text "frozen", frozen)
    ∷ policies_of profile)

module _ (host : Host) where
  -- The record that `prepare` publishes.
  unfoldable pub intent :
      Text → Value → Value → Value → Value → Option Value → Directory → Result Value
  unfolding Inputs.validate owner_of chain unit_of launch_value validate_launch
  intent hex ticket endpoint frozen config profile d = do
    _ ← Inputs.validate host frozen config
    owner ← owner_of ticket
    c ← chain host d
    unit ← unit_of hex c.launched
    let value = launch_value owner endpoint unit frozen profile
    validate_launch host value
    ok value

  unfoldable pub prepare :
      (Directory → Directory)
      → Text
      → Text
      → Value
      → Value
      → Value
      → Value
      → Option Value
      → Directory
      → Result Value × Directory
  unfolding intent publish_next
  prepare others nonce hex ticket endpoint frozen config profile d =
      publish_next host (intent hex ticket endpoint frozen config profile d) others nonce launch d

  -- A launch record for the ticket's claim: validated, owned by the ticket's worker, Run and nonce,
  -- of the unit that an earlier launch record names, or of a fresh one.
  pub record IsIntent (hex : Text) (ticket frozen config : Value) (d : Directory) (value : Value)
      : Type 0 where
    pub pinned : Inputs.validate host frozen config ≡ ok frozen
    pub worker : Value
    pub run : Value
    pub nonce : Value
    pub worker_is : index ticket (text "worker") ≡ ok worker
    pub run_is : index ticket (text "run") ≡ ok run
    pub nonce_is : index ticket (text "nonce") ≡ ok nonce
    pub owner_is :
        index value (text "owner")
        ≡ ok (dict ((text "worker", worker) ∷ (text "run", run) ∷ (text "nonce", nonce) ∷ []))
    pub c : Chain
    pub adopted : chain host d ≡ ok c
    pub unit : Value
    pub unit_kept :
        (previous : Value) → c.launched ≡ some previous → index previous (text "unit") ≡ ok unit
    pub unit_fresh :
        c.launched ≡ none → unit ≡ str (text "simmis-worker-" ++ hex ++ text ".service")
    pub record_unit : index value (text "unit") ≡ ok unit
    pub record_frozen : index value (text "frozen") ≡ ok frozen
    pub valid : validate_launch host value ≡ ok tt

  unit_of-previous :
      (hex : Text) (previous : Value) {unit : Value}
      → unit_of hex (some previous) ≡ ok unit
      → index previous (text "unit") ≡ ok unit
  unfolding unit_of
  unit_of-previous hex previous e = e

  unit_of-none :
      (hex : Text) {unit : Value}
      → unit_of hex none ≡ ok unit
      → unit ≡ str (text "simmis-worker-" ++ hex ++ text ".service")
  unfolding unit_of
  unit_of-none hex e = sym (ok-injective e)

  intent-IsIntent :
      (hex : Text) (ticket endpoint frozen config : Value) (profile : Option Value) (d : Directory)
      {value : Value}
      → intent hex ticket endpoint frozen config profile d ≡ ok value
      → IsIntent hex ticket frozen config d value
  unfolding intent launch_value index owner_of
  intent-IsIntent hex ticket endpoint frozen config profile d h =
      let (v, ev, h) = >>=-eq-ok (Inputs.validate host frozen config) _ h in
      let (owner, eo, h) = >>=-eq-ok (owner_of ticket) _ h in
      let (_, _, eo) = >>=-eq-ok (Claim.validate ticket) _ eo in
      let (worker, ew, eo) = >>=-eq-ok (index ticket (text "worker")) _ eo in
      let (run, er, eo) = >>=-eq-ok (index ticket (text "run")) _ eo in
      let (nonce, en, eo) = >>=-eq-ok (index ticket (text "nonce")) _ eo in
      let (c, ec, h) = >>=-eq-ok (chain host d) _ h in
      let (unit, eu, h) = >>=-eq-ok (unit_of hex c.launched) _ h in
      let value = launch_value owner endpoint unit frozen profile in
      let (_, valid, h) = >>=-eq-ok (validate_launch host value) (λ _. ok value) h in
      subst (IsIntent hex ticket frozen config d) (ok-injective h) (record {
        pinned = ev ∙ ap ok (validate-IsFrozen host frozen config ev).0;
        worker = worker;
        run = run;
        nonce = nonce;
        worker_is = ew;
        run_is = er;
        nonce_is = en;
        owner_is = sym eo;
        c = c;
        adopted = ec;
        unit = unit;
        unit_kept = λ previous e. unit_of-previous hex previous (ap (unit_of hex) (sym e) ∙ eu);
        unit_fresh = λ e. unit_of-none hex (ap (unit_of hex) (sym e) ∙ eu);
        record_unit = refl;
        record_frozen = refl;
        valid = valid;
      })

  publish_intent :
      (r : Result Value) (others : Directory → Directory) (nonce hex : Text)
      (ticket endpoint frozen config : Value) (profile : Option Value) (d : Directory) {v : Value}
      → Leaves others (staged_name nonce)
      → intent hex ticket endpoint frozen config profile d ≡ r
      → (publish_next host r others nonce launch d).0 ≡ ok v
      → (value : Value) × IsIntent hex ticket frozen config d value
        × IsPublished host launch value v (publish_next host r others nonce launch d).1
  unfolding publish_next
  publish_intent (err e) others nonce hex ticket endpoint frozen config profile d left i h = cc
  publish_intent (ok value) others nonce hex ticket endpoint frozen config profile d left i h = (
    value,
    intent-IsIntent hex ticket endpoint frozen config profile d i,
    publish-IsPublished host others nonce launch value d left h,
  )

  -- Where preparing a Run succeeds, whatever the other processes did before the link but for the
  -- staging file, which they leave alone, the frozen input was accepted, the journal was an accepted
  -- chain, and the directory afterwards has the encoding of a launch record that passes its
  -- validation, has the frozen input, and has as its owner the worker, the Run and the nonce that
  -- the ticket has. Its unit is the one of an earlier launch record, if there is one, and is
  -- otherwise named with the fresh hexadecimal name.
  pub prepare-IsIntent :
      (others : Directory → Directory) (nonce hex : Text) (ticket endpoint frozen config : Value)
      (profile : Option Value) (d : Directory) {v : Value}
      → Leaves others (staged_name nonce)
      → (prepare others nonce hex ticket endpoint frozen config profile d).0 ≡ ok v
      → (value : Value) × IsIntent hex ticket frozen config d value
        × IsPublished host launch value v
            (prepare others nonce hex ticket endpoint frozen config profile d).1
  unfolding prepare
  prepare-IsIntent others nonce hex ticket endpoint frozen config profile d left h =
      publish_intent (intent hex ticket endpoint frozen config profile d) others nonce hex ticket
        endpoint frozen config profile d left refl h
