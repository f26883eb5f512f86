-- ===== src/Controller.antt =====
-- scripts/worker_controller.py, `checked_receipt`: what the controller accepts as the server's word on
-- the lease of one claim.
pub mod Receipt
pub mod Calls
pub mod Lease
pub mod Steps
pub mod Run
pub mod Order
pub mod Serviced
pub mod Ordered
pub mod Aborted
pub mod Runs
pub mod Whole
pub mod Reconcile
pub mod Resumed
pub mod Settled
use simmis.Prelude.{
  if◌then◌else◌, ℕ, ◌^◌, ◌-◌, Bool, true, false, ◌&&◌, ◌||◌, not, List, [], ◌∷◌, ◌++◌, ◌==◌,
  list_eq, nat_eq, contains, list_beq, Result, ok, err, ◌>>=◌, ◌>>◌, require, value_error,
}
use simmis.Inputs.{canonical_uuid}
use simmis.Journal.Validate.{same_text, is_bool}
use simmis.Value.{
  Text, text, Value, obj, Dict, entries, keys, has_exactly, item, index, is_int_in, is_str, in_set,
}

abbrev pub receipt_fields : List Text
receipt_fields =
    text "run"
    ∷ text "lease"
    ∷ text "state"
    ∷ text "cancel-requested?"
    ∷ text "stop-ack?"
    ∷ text "expires-at-ms"
    ∷ []

abbrev pub receipt_states : List Text
receipt_states = text "claimed" ∷ text "quarantined" ∷ text "stopped" ∷ text "completed" ∷ []

-- The two key sets that a receipt may have.
unfoldable pub receipt_dict : Value → Result Dict
unfolding has_exactly
receipt_dict (obj fs) = do
  require (
      has_exactly receipt_fields (entries fs)
      || has_exactly (receipt_fields ++ text "output-id" ∷ []) (entries fs))
  ok (entries fs)
receipt_dict _ = err value_error

abbrev pub has_output : Dict → Bool
has_output r = contains (keys r) (text "output-id")

-- `if "output-id" in value: inputs.canonical_uuid(value["output-id"])`
unfoldable pub check_output_id : Bool → Dict → Result (Unit {0})
unfolding item canonical_uuid
check_output_id false r = ok tt
check_output_id true r = do u ← item (text "output-id") r; _ ← canonical_uuid u; ok tt

-- a == b of two bools
unfoldable pub same_bit : Bool → Bool → Bool
same_bit a b = if a then b else not b

unfoldable pub checked_receipt : Value → Value → Result Value
unfolding receipt_dict index item same_text in_set is_bool is_int_in check_output_id is_str contains
    list_beq keys same_bit
checked_receipt value ticket = do
  r ← receipt_dict value
  run ← item (text "run") r
  claimed ← index ticket (text "run")
  require (same_text run claimed)
  lease ← item (text "lease") r
  nonce ← index ticket (text "nonce")
  require (same_text lease nonce)
  state ← item (text "state") r
  known ← in_set receipt_states state
  require known
  cancel ← item (text "cancel-requested?") r
  require (is_bool cancel)
  ack ← item (text "stop-ack?") r
  require (is_bool ack)
  expires ← item (text "expires-at-ms") r
  require (is_int_in 0 (2 ^ 63 - 1) expires)
  check_output_id (has_output r) r
  require (same_bit (is_str (λ s. s == text "completed") state) (has_output r))
  ok value
