-- ===== src/Journal/Chain.antt =====
-- `_chain`, `_advance`, `admit`, `stopped` and `acknowledge`: the phases of a Run in their order.
pub mod Linked
pub mod Advance
use simmis.Prelude.{
  Bool, true, false, ◌&&◌, [], ◌∷◌, Option, none, some, Result, ok, err, ◌>>=◌, ◌>>◌, require,
  value_error, pos,
}
use simmis.Files.{Directory}
use simmis.Host.{Host}
use simmis.Journal.Records.{
  Phase, launch, admitted, stopped, acknowledged, phase_name, read_record, digest,
}
use simmis.Journal.Publish.{publish}
use simmis.Journal.Validate.{
  validate_launch, validate_admitted, validate_stopped, validate_acknowledged,
}
use simmis.Value.{Text, text, Value, null, int, str, Dict, dict}

-- The records of the four phases, those that are there.
pub record Chain : Type 0 where
  pub launched : Option Value
  pub admission : Option Value
  pub sealed : Option Value
  pub receipt : Option Value

unfoldable pub is_missing : Option Value → Bool
is_missing none = true
is_missing (some v) = false

-- PHASES[PHASES.index(phase) - 1]; the index -1 of the first phase is the last one's.
unfoldable pub prior_of : Phase → Chain → Option Value
prior_of launch c = c.receipt
prior_of admitted c = c.launched
prior_of stopped c = c.admission
prior_of acknowledged c = c.sealed

-- A record that Python would pass on as None.
unfoldable pub or_null : Option Value → Value
or_null none = null
or_null (some v) = v

module _ (host : Host) where
  unfoldable pub check_receipt : Value → Value → Option Value → Result (Unit {0})
  unfolding validate_acknowledged
  check_receipt l s none = ok tt
  check_receipt l s (some r) = validate_acknowledged host r l s

  unfoldable pub check_sealed : Value → Value → Option Value → Option Value → Result (Unit {0})
  unfolding is_missing validate_stopped check_receipt
  check_sealed l a none r = require (is_missing r)
  check_sealed l a (some s) r = validate_stopped host s l a >> check_receipt l s r

  unfoldable pub check_admission :
      Value → Option Value → Option Value → Option Value → Result (Unit {0})
  unfolding is_missing validate_admitted check_sealed
  check_admission l none s r = require (is_missing s && is_missing r)
  check_admission l (some a) s r = validate_admitted host a l >> check_sealed l a s r

  unfoldable pub check_launch :
      Option Value → Option Value → Option Value → Option Value → Result (Unit {0})
  unfolding is_missing validate_launch check_admission
  check_launch none a s r = require (is_missing a && is_missing s && is_missing r)
  check_launch (some l) a s r = validate_launch host l >> check_admission l a s r

  -- `_chain`
  unfoldable pub chain : Directory → Result Chain
  unfolding read_record check_launch
  chain d = do
    l ← read_record host (phase_name launch) d
    a ← read_record host (phase_name admitted) d
    s ← read_record host (phase_name stopped) d
    r ← read_record host (phase_name acknowledged) d
    check_launch l a s r
    ok (record { launched = l; admission = a; sealed = s; receipt = r })

  -- The branches of `_advance` that validate.
  unfoldable pub validate_next : Phase → Value → Chain → Value → Result (Unit {0})
  unfolding validate_admitted validate_stopped validate_acknowledged or_null
  validate_next admitted value c prior = validate_admitted host value (or_null c.launched)
  validate_next stopped value c prior = validate_stopped host value (or_null c.launched) prior
  validate_next _ value c prior = validate_acknowledged host value (or_null c.launched) prior

  -- The record that `_advance` publishes, validated against the chain.
  unfoldable pub next_of : Phase → Dict → Chain → Option Value → Result Value
  unfolding validate_next digest
  next_of phase values c none = err value_error
  next_of phase values c (some prior) = do
    previous ← digest host prior
    let value = dict (
        (text "version", int (pos 1))
        ∷ (text "phase", str (phase_name phase))
        ∷ (text "previous", str previous)
        ∷ values)
    validate_next phase value c prior
    ok value

  unfoldable pub next : Phase → Dict → Directory → Result Value
  unfolding chain next_of prior_of
  next phase values d = do c ← chain d; next_of phase values c (prior_of phase c)

  unfoldable pub publish_next :
      Result Value → (Directory → Directory) → Text → Phase → Directory → Result Value × Directory
  unfolding publish
  publish_next (err e) others nonce phase d = (err e, d)
  publish_next (ok value) others nonce phase d =
      publish host others nonce (phase_name phase) value d

  -- `_advance`
  unfoldable pub advance :
      (Directory → Directory) → Text → Phase → Dict → Directory → Result Value × Directory
  unfolding next publish_next
  advance others nonce phase values d = publish_next (next phase values d) others nonce phase d

  unfoldable pub admit :
      (Directory → Directory) → Text → Value → Directory → Result Value × Directory
  unfolding advance
  admit others nonce identity d = advance others nonce admitted ((text "identity", identity) ∷ []) d

  -- digest(output) if output is not None else None
  unfoldable pub seal_of : Value → Result Value
  unfolding digest
  seal_of null = ok null
  seal_of output = do s ← digest host output; ok (str s)

  unfoldable pub stop_with :
      Result Value
      → (Directory → Directory)
      → Text
      → Value
      → Value
      → Directory
      → Result Value × Directory
  unfolding advance
  stop_with (err e) others nonce observation output d = (err e, d)
  stop_with (ok seal) others nonce observation output d =
      advance others nonce stopped
        ((text "observation", observation)
          ∷ (text "output", output)
          ∷ (text "output-sha256", seal)
          ∷ [])
        d

  -- `stopped`
  unfoldable pub stop :
      (Directory → Directory) → Text → Value → Value → Directory → Result Value × Directory
  unfolding seal_of stop_with
  stop others nonce observation output d =
      stop_with (seal_of output) others nonce observation output d

  unfoldable pub acknowledge :
      (Directory → Directory) → Text → Value → Value → Directory → Result Value × Directory
  unfolding advance
  acknowledge others nonce outcome receipt d =
      advance others nonce acknowledged ((text "outcome", outcome) ∷ (text "receipt", receipt) ∷ [])
        d
