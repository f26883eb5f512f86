-- ===== src/Journal/Validate/Outcome.antt =====
-- What the last two phases of an accepted journal say.
use simmis.Prelude.{
  ℕ, ◌≡◌, ◌⊎◌, ap, ◌∙◌, true, List, [], ◌∷◌, Option, some, ok, >>=-eq-ok, require-eq-ok,
  require-eq-ok_only, ok-injective, inl, inr, ◌==◌, list_eq, nat_eq, list_beq_iff, Bool-cases,
  list_beq, contains,
}
use simmis.Journal.Records.{phase_name, Phase, acknowledged, common, link_of, is_link}
use simmis.Host.{Host}
use simmis.ExecutionUnit.{as_text}
use simmis.Journal.Validate.{
  validate_acknowledged, check_outcome, check_completion, same_text, is_true, completion_fields,
}
use simmis.Value.{Text, text, Value, bool, str, Dict, closed, item, index, is_int, is_str}
use simmis.Value.Laws.{closed-index}
use simmis.Outputs.{is_file}

same_text-eq : (v w : Value) → same_text v w ≡ true → v ≡ w
unfolding same_text
same_text-eq (str s) (str t) h = ap str ((list_beq_iff s t).0 h)
same_text-eq _ _ h = cc

is_true-eq : (v : Value) → is_true v ≡ true → v ≡ bool true
unfolding is_true
is_true-eq (bool b) h = ap bool h
is_true-eq _ h = cc

as_text-eq : (v : Value) {t : Text} → as_text v ≡ ok t → v ≡ str t
unfolding as_text
as_text-eq (str s) h = ap str (ok-injective h)
as_text-eq _ h = cc

is_str-eq : (t : Text) (v : Value) → is_str (λ s. s == t) v ≡ true → v ≡ str t
unfolding is_str
is_str-eq t (str s) h = ap str ((list_beq_iff s t).0 h)
is_str-eq t _ h = cc

-- What a server completion establishes: there is a sealed output, and the receipt is of the
-- lease that the launch claimed.
pub record IsCompletion (receipt launched sealed : Value) : Type 0 where
  pub output : Value
  pub output_is : index sealed (text "output") ≡ ok output
  pub not_null : is_file output ≡ true
  pub owner : Value
  pub nonce : Value
  pub owner_is : index launched (text "owner") ≡ ok owner
  pub nonce_is : index owner (text "nonce") ≡ ok nonce
  pub lease_is : index receipt (text "lease") ≡ ok nonce
  pub state_is : index receipt (text "state") ≡ ok (str (text "completed"))

check_completion-IsCompletion :
    (host : Host) (receipt launched sealed : Value) {u : Unit {0}}
    → check_completion host receipt launched sealed ≡ ok u
    → IsCompletion receipt launched sealed
unfolding check_completion contains list_beq
check_completion-IsCompletion host receipt launched sealed h =
    let (r, c, h) = >>=-eq-ok (closed receipt completion_fields) _ h in
    let (output, eo, h) = >>=-eq-ok (index sealed (text "output")) _ h in
    let (there, h) = require-eq-ok (is_file output) _ h in
    let (owner, ew, h) = >>=-eq-ok (index launched (text "owner")) _ h in
    let (nonce, en, h) = >>=-eq-ok (index owner (text "nonce")) _ h in
    let (lease, el, h) = >>=-eq-ok (item (text "lease") r) _ h in
    let (same, h) = require-eq-ok (same_text lease nonce) _ h in
    let (state, es, h) = >>=-eq-ok (item (text "state") r) _ h in
    let (completed, h) = require-eq-ok (is_str (λ s. s == text "completed") state) _ h in
    record {
      output = output;
      output_is = eo;
      not_null = there;
      owner = owner;
      nonce = nonce;
      owner_is = ew;
      nonce_is = en;
      lease_is =
          closed-index receipt completion_fields (text "lease") c
          ∙ el
          ∙ ap ok (same_text-eq lease nonce same);
      state_is =
          closed-index receipt completion_fields (text "state") c
          ∙ es
          ∙ ap ok (is_str-eq (text "completed") state completed);
    }

-- What an outcome means.
abbrev pub Meaning : Text → Value → Value → Value → Type 0
Meaning outcome receipt launched sealed =
    (outcome ≡ text "stopped")
    ⊎ ((outcome ≡ text "completed") × IsCompletion receipt launched sealed)

check_outcome-Meaning :
    (host : Host) (outcome : Text) (receipt launched sealed : Value) {u : Unit {0}}
    → check_outcome host outcome receipt launched sealed ≡ ok u
    → Meaning outcome receipt launched sealed
unfolding check_outcome
check_outcome-Meaning host outcome receipt launched sealed h =
    elim (Bool-cases (outcome == text "stopped")) [
      | inl here ↦ inl ((list_beq_iff outcome (text "stopped")).0 here)
      | inr other ↦ elim (Bool-cases (outcome == text "completed")) [
        | inl here ↦ inr (
          (list_beq_iff outcome (text "completed")).0 here,
          check_completion-IsCompletion host receipt launched sealed (rw (other, here) at h),
        )
        | inr neither ↦ cc
      ]
    ]

-- What an acknowledged record establishes.
pub record IsAcknowledged (value launched sealed : Value) : Type 0 where
  pub receipt : Value
  pub receipt_is : index value (text "receipt") ≡ ok receipt
  pub outcome : Text
  pub outcome_is : index value (text "outcome") ≡ ok (str outcome)
  pub meaning : Meaning outcome receipt launched sealed
  pub owner : Value
  pub run : Value
  pub owner_is : index launched (text "owner") ≡ ok owner
  pub owner_run : index owner (text "run") ≡ ok run
  pub receipt_run : index receipt (text "run") ≡ ok run
  pub stop_ack : index receipt (text "stop-ack?") ≡ ok (bool true)

module _ (host : Host) where
  common-closed :
      (value : Value) (phase : Phase) (previous : Option Value) (names : List Text) (version : ℕ)
      {d : Dict}
      → common host value phase previous names version ≡ ok d
      → closed value (text "version" ∷ text "phase" ∷ text "previous" ∷ names) ≡ ok d
  unfolding common
  common-closed value phase previous names version {d} h =
      let all_names = text "version" ∷ text "phase" ∷ text "previous" ∷ names in
      let (e, c, h) = >>=-eq-ok (closed value all_names) _ h in
      let (v, _, h) = >>=-eq-ok (item (text "version") e) _ h in
      let (_, h) = require-eq-ok (is_int version v) _ h in
      let (p, _, h) = >>=-eq-ok (item (text "phase") e) _ h in
      let (_, h) = require-eq-ok (is_str (λ s. s == phase_name phase) p) _ h in
      let (expected, _, h) = >>=-eq-ok (link_of host previous) _ h in
      let (given, _, h) = >>=-eq-ok (item (text "previous") e) _ h in
      let (_, h) = require-eq-ok (is_link given expected) (ok e) h in c ∙ h

  -- An accepted acknowledgment has a receipt that names the Run which the launch record owns and
  -- confirms the stop. Its outcome is `stopped` or `completed`; where it is `completed`, the stopped
  -- record has an output and the receipt is of the lease whose nonce the launch owns.
  pub validate_acknowledged-IsAcknowledged :
      (value launched sealed : Value) {u : Unit {0}}
      → validate_acknowledged host value launched sealed ≡ ok u
      → IsAcknowledged value launched sealed
  unfolding validate_acknowledged contains list_beq
  validate_acknowledged-IsAcknowledged value launched sealed h =
      let names = text "outcome" ∷ text "receipt" ∷ [] in
      let all_names = text "version" ∷ text "phase" ∷ text "previous" ∷ names in
      let (d, c, h) = >>=-eq-ok (common host value acknowledged (some sealed) names 1) _ h in
      let k = common-closed value acknowledged (some sealed) names 1 c in
      let (receipt, er, h) = >>=-eq-ok (item (text "receipt") d) _ h in
      let (o, eo, h) = >>=-eq-ok (item (text "outcome") d) _ h in
      let (outcome, et, h) = >>=-eq-ok (as_text o) _ h in
      let (_, m, h) = >>=-eq-ok (check_outcome host outcome receipt launched sealed) _ h in
      let (run, eu, h) = >>=-eq-ok (index receipt (text "run")) _ h in
      let (owner, ew, h) = >>=-eq-ok (index launched (text "owner")) _ h in
      let (owned, en, h) = >>=-eq-ok (index owner (text "run")) _ h in
      let (same, h) = require-eq-ok (same_text run owned) _ h in
      let (ack, ea, h) = >>=-eq-ok (index receipt (text "stop-ack?")) _ h in
      record {
        receipt = receipt;
        receipt_is = closed-index value all_names (text "receipt") k ∙ er;
        outcome = outcome;
        outcome_is = closed-index value all_names (text "outcome") k ∙ eo ∙ ap ok (as_text-eq o et);
        meaning = check_outcome-Meaning host outcome receipt launched sealed m;
        owner = owner;
        run = owned;
        owner_is = ew;
        owner_run = en;
        receipt_run = eu ∙ ap ok (same_text-eq run owned same);
        stop_ack = ea ∙ ap ok (is_true-eq ack (require-eq-ok_only (is_true ack) h));
      }
