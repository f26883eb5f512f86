-- ===== src/Tests/Controller.antt =====
-- Runs and instances for worker_controller.py.
use simmis.Prelude.{◌≡◌, refl, false, [], ◌∷◌, ok, err, value_error, type_error}
use simmis.Claim.{new_ticket}
use simmis.Controller.{checked_receipt}
use simmis.Controller.Receipt.{IsReceipt, checked_receipt-IsReceipt}
use simmis.Tests.Runs.{receipt}
use simmis.Tests.Sample.{string, number, input_id}
use simmis.Value.{text, Value, Items, bool, arr, dict}

abbrev pub ticket : Value
ticket = new_ticket (text input_id) (text input_id) (text input_id) []

accepted_receipt : checked_receipt receipt ticket ≡ ok receipt
unfolding checked_receipt new_ticket
accepted_receipt = refl

checked_receipt-IsReceipt_example : (receipt ≡ receipt) × IsReceipt receipt ticket
checked_receipt-IsReceipt_example = checked_receipt-IsReceipt receipt ticket accepted_receipt

abbrev with_state : Value → Value
with_state state = dict (
    (text "run", string input_id)
    ∷ (text "lease", string input_id)
    ∷ (text "state", state)
    ∷ (text "cancel-requested?", bool false)
    ∷ (text "stop-ack?", bool false)
    ∷ (text "expires-at-ms", number 1)
    ∷ [])

-- A completion without its output is refused; a state that is a list is a TypeError.
refused_receipts :
    (checked_receipt (with_state (string "completed")) ticket ≡ err value_error)
    × (checked_receipt (with_state (arr Items.nil)) ticket ≡ err type_error)
unfolding checked_receipt new_ticket
refused_receipts = (refl, refl)
