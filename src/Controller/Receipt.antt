-- ===== src/Controller/Receipt.antt =====
-- What an accepted receipt is.
use simmis.Prelude.{
  ◌^◌, ◌-◌, ◌≡◌, refl, sym, ap, ◌∙◌, Bool, true, false, ◌||◌, [], ◌∷◌, ◌++◌, ◌==◌, list_eq, nat_eq,
  list_beq_iff, contains, ok, >>=-eq-ok, require-eq-ok, ok-injective, arith, ◌↔◌,
}
use simmis.Journal.Validate.{same_text, is_bool}
use simmis.Controller.{
  receipt_fields, receipt_states, receipt_dict, has_output, check_output_id, checked_receipt,
  same_bit,
}
use simmis.Value.{
  Text, text, Value, str, obj, Dict, entries, dict, fields, keys, has_exactly, item, index,
  is_int_in, is_str, in_set,
}
use simmis.Value.Laws.{fields-entries, index-dict}

same_text-eq : (v w : Value) → same_text v w ≡ true → v ≡ w
unfolding same_text
same_text-eq (str s) (str t) h = ap str ((list_beq_iff s t).0 h)
same_text-eq _ _ h = cc

is_str-eq : (t : Text) (v : Value) → is_str (λ s. s == t) v ≡ true → v ≡ str t
unfolding is_str
is_str-eq t (str s) h = ap str ((list_beq_iff s t).0 h)
is_str-eq t _ h = cc

str_test : (t : Text) → is_str (λ s. s == t) (str t) ≡ true
unfolding is_str
str_test t = (list_beq_iff t t).1 refl

same_bit-eq : (a b : Bool) → same_bit a b ≡ true → a ≡ b
unfolding same_bit
same_bit-eq true b h = sym h
same_bit-eq false b h = ground arith

receipt_dict-eq : (v : Value) {r : Dict} → receipt_dict v ≡ ok r → v ≡ dict r
unfolding receipt_dict
receipt_dict-eq (obj fs) h =
    let t =
      has_exactly receipt_fields (entries fs)
      || has_exactly (receipt_fields ++ text "output-id" ∷ []) (entries fs) in
    let (_, e) = require-eq-ok t (ok (entries fs)) h in
    ap obj (sym (fields-entries fs) ∙ ap fields (ok-injective e))
receipt_dict-eq _ h = cc

-- A receipt of the exact claim that the ticket identifies.
pub record IsReceipt (value ticket : Value) : Type 0 where
  pub r : Dict
  pub value_is : value ≡ dict r
  pub run : Value
  pub ticket_run : index ticket (text "run") ≡ ok run
  pub receipt_run : index value (text "run") ≡ ok run
  pub nonce : Value
  pub ticket_nonce : index ticket (text "nonce") ≡ ok nonce
  pub receipt_lease : index value (text "lease") ≡ ok nonce
  pub state : Value
  pub state_is : index value (text "state") ≡ ok state
  pub completed : (state ≡ str (text "completed")) ↔ (contains (keys r) (text "output-id") ≡ true)

-- A receipt that `checked_receipt` accepts is returned as it is; its run and lease are the run and
-- the nonce of the ticket, and its state is `completed` exactly when it names an output.
pub checked_receipt-IsReceipt :
    (value ticket : Value) {v : Value}
    → checked_receipt value ticket ≡ ok v
    → (v ≡ value) × IsReceipt value ticket
unfolding checked_receipt
checked_receipt-IsReceipt value ticket h =
    let (r, er, h) = >>=-eq-ok (receipt_dict value) _ h in
    let (run, eu, h) = >>=-eq-ok (item (text "run") r) _ h in
    let (claimed, ec, h) = >>=-eq-ok (index ticket (text "run")) _ h in
    let (su, h) = require-eq-ok (same_text run claimed) _ h in
    let (lease, el, h) = >>=-eq-ok (item (text "lease") r) _ h in
    let (nonce, en, h) = >>=-eq-ok (index ticket (text "nonce")) _ h in
    let (sl, h) = require-eq-ok (same_text lease nonce) _ h in
    let (state, es, h) = >>=-eq-ok (item (text "state") r) _ h in
    let (known, _, h) = >>=-eq-ok (in_set receipt_states state) _ h in
    let (_, h) = require-eq-ok known _ h in
    let (cancel, _, h) = >>=-eq-ok (item (text "cancel-requested?") r) _ h in
    let (_, h) = require-eq-ok (is_bool cancel) _ h in
    let (ack, _, h) = >>=-eq-ok (item (text "stop-ack?") r) _ h in
    let (_, h) = require-eq-ok (is_bool ack) _ h in
    let (expires, _, h) = >>=-eq-ok (item (text "expires-at-ms") r) _ h in
    let (_, h) = require-eq-ok (is_int_in 0 (2 ^ 63 - 1) expires) _ h in
    let (_, _, h) = >>=-eq-ok (check_output_id (has_output r) r) _ h in
    let finished = is_str (λ s. s == text "completed") state in
    let (both, h) = require-eq-ok (same_bit finished (has_output r)) (ok value) h in
    let shape = receipt_dict-eq value er in
    let at : (k : Text) → index value k ≡ item k r =
      λ k. ap (λ x. index x k) shape ∙ index-dict k r in
    let same = same_bit-eq finished (has_output r) both in
    (
      sym (ok-injective h),
      record {
        r = r;
        value_is = shape;
        run = claimed;
        ticket_run = ec;
        receipt_run = at (text "run") ∙ eu ∙ ap ok (same_text-eq run claimed su);
        nonce = nonce;
        ticket_nonce = en;
        receipt_lease = at (text "lease") ∙ el ∙ ap ok (same_text-eq lease nonce sl);
        state = state;
        state_is = at (text "state") ∙ es;
        completed = (
          λ e. sym same ∙ ap (is_str (λ s. s == text "completed")) e ∙ str_test (text "completed"),
          λ e. is_str-eq (text "completed") state (same ∙ e),
        );
      },
    )
