-- ===== src/Payload/Amounts.antt =====
-- The branches of validate_payload that move an amount: STAKE, DELEGATE and UNSTAKE, TRANSFER,
-- MINT_TOKEN and TRANSFER_TOKEN.
use qbit_network.Common.{String, not, ◌&&◌, ◌==◌, str_eq, length}
use qbit_network.Common.Int.{pos, ltb_ℤ, leb_ℤ}
use qbit_network.Common.Dict.{Dict, lookup, string_eq}
use qbit_network.Common.Exec.{err}
use qbit_network.Common.Hex.{codes}
use qbit_network.Config.{min_stake, max_stake, max_supply}
use qbit_network.Transaction.{Value}
use qbit_network.Payload.{
  Refusal, Checked, accept, refuse_if, or_empty, require_int, require_text, optional_text,
  matches_hex, is_address, truthy,
}

unfoldable pub check_stake : Dict String Value → Checked
check_stake payload = require_int (lookup "amount" payload) Refusal.amount_below_min_stake λ amount.
    refuse_if (ltb_ℤ amount (pos min_stake)) Refusal.amount_below_min_stake (
      refuse_if (ltb_ℤ (pos max_stake) amount) Refusal.amount_above_max_stake (
        require_text (or_empty (lookup "validator_address" payload)) Refusal.validator_address_empty
          λ vaddr. accept))

-- The check of an amount of coins or tokens.
unfoldable pub check_amount : Dict String Value → Checked → Checked
check_amount payload k = require_int (lookup "amount" payload) Refusal.amount_not_positive λ amount.
    refuse_if (leb_ℤ amount (pos 0)) Refusal.amount_not_positive
      (refuse_if (ltb_ℤ (pos max_supply) amount) Refusal.exceeds_max_supply k)

-- The check of the memo of a transfer.
unfoldable pub check_memo : Dict String Value → Checked → Checked
check_memo payload k =
    optional_text (lookup "memo" payload) 256 Refusal.memo_not_text Refusal.memo_too_long k

-- The check of a recipient who must not be the sender. A recipient that is true and no text has no
-- method startswith.
unfoldable pub check_other_recipient : String → Value → Checked → Checked
check_other_recipient sender (Value.text recipient) k =
    refuse_if (str_eq recipient "") Refusal.recipient_required (
      refuse_if (str_eq recipient sender) Refusal.recipient_is_sender
        (refuse_if (not (is_address recipient)) Refusal.recipient_invalid k))
check_other_recipient sender v k =
    refuse_if (not (truthy v)) Refusal.recipient_required (err Refusal.attribute_error)

-- The check of the recipient of a mint.
unfoldable pub check_recipient : Value → Checked
check_recipient (Value.text recipient) =
    refuse_if (str_eq recipient "") Refusal.recipient_required
      (refuse_if (not (is_address recipient)) Refusal.recipient_invalid accept)
check_recipient v =
    refuse_if (not (truthy v)) Refusal.recipient_required (err Refusal.attribute_error)

unfoldable pub check_transfer : String → Value → Dict String Value → Checked
check_transfer sender recipient payload =
    check_amount payload (check_memo payload (check_other_recipient sender recipient accept))

-- The check of a token id.
unfoldable pub check_token_id : Value → Checked → Checked
check_token_id (Value.text s) k =
    refuse_if (not (length (codes s) == 32 && matches_hex (codes s))) Refusal.token_id_invalid k
check_token_id v k = err Refusal.token_id_invalid

unfoldable pub check_mint_token : Value → Dict String Value → Checked
check_mint_token recipient payload =
    check_token_id (or_empty (lookup "token_id" payload))
      (check_amount payload (check_recipient recipient))

unfoldable pub check_transfer_token : String → Value → Dict String Value → Checked
check_transfer_token sender recipient payload =
    check_token_id (or_empty (lookup "token_id" payload))
      (check_amount payload (check_other_recipient sender recipient (check_memo payload accept)))
