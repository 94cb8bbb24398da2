-- ===== src/Payload/Examples.antt =====
-- Payloads that pass and payloads that do not.
use qbit_network.Common.Hex.{from_hex}
use qbit_network.Payload.{matches_hex}
use qbit_network.Payload.Evidence.{check_evidence}
use qbit_network.Payload.Documents.{check_notarize}
use qbit_network.Payload.Amounts.{check_other_recipient, check_transfer, check_amount, check_memo}
use qbit_network.Payload.Amounts.{check_memo}
use qbit_network.Payload.Amounts.{check_amount}
use qbit_network.Payload.Amounts.{check_transfer}
use qbit_network.Payload.{rest_matches}
use qbit_network.Common.Hex.{hex_digit}
use qbit_network.Common.{◌≤◌, String, true, false, [], ◌∷◌, ◌≡◌, refl, arith, All}
use qbit_network.Common.Int.{pos}
use qbit_network.Common.Dict.{lookup, string_eq}
use qbit_network.Common.Exec.{err}
use qbit_network.Config.{TxType}
use qbit_network.Staking.{member}
use qbit_network.Transaction.{Transaction, Primitives, Value}
use qbit_network.Payload.{Refusal, accept, is_address}
use qbit_network.Payload.Validate.{validate_payload, validate_with, allowed_keys, max_size}
use qbit_network.Payload.Sound.{IsSound, validate_payload-IsSound}
use qbit_network.Payload.Quiet.{raised, validate_payload_quiet}
use qbit_network.Payload.Complete.{validate_payload_complete, transfer_payload}

abbrev primitives : Primitives
primitives = record {
  json_size = λ d. 40;
  signable_bytes = λ tx. 7 ∷ [];
  sha3_hex = λ bytes. "ab";
  derive_address = λ key. "alice";
  mldsa_verify = λ key message signature. true;
}

abbrev bob : String
bob = "qv1bbbbbbbbbbbbbbbbbbbbbbbbbbbbbbbbbbbbbbbbbbbbbbbbbbbbbbbbbbbbbbbb"

abbrev payment : Transaction
payment = record {
  tx_type = TxType.transfer;
  sender = "alice";
  recipient = bob;
  timestamp = pos 1;
  payload = transfer_payload 5;
  signature = 1 ∷ [];
  sender_pubkey = 2 ∷ [];
  nonce = pos 0;
  chain_id = "qbit-mainnet";
  max_fee_per_weight = 12;
  max_priority_fee = 1;
  tx_id = "payment";
}

bob_address : is_address bob ≡ true
unfolding is_address hex_digit rest_matches
bob_address = refl

payment_accepted : validate_payload primitives payment ≡ accept
unfolding validate_payload member allowed_keys lookup check_transfer check_amount check_memo
    check_other_recipient is_address hex_digit rest_matches
payment_accepted = refl

validate_payload-IsSound_example :
    (40 ≤ max_size TxType.transfer)
    × All (λ e. member e.0 (allowed_keys TxType.transfer) ≡ true) payment.payload
    × IsSound primitives TxType.transfer "alice" bob payment.payload
validate_payload-IsSound_example = validate_payload-IsSound primitives payment payment_accepted

-- The recipient is missing.
validate_payload_quiet_example : raised (validate_with primitives payment Value.null) ≡ false
validate_payload_quiet_example =
    validate_payload_quiet primitives payment Value.null refl (λ e. refl)

-- A recipient that is a number makes startswith raise.
numeric_recipient : raised (validate_with primitives payment (Value.int (pos 5))) ≡ true
unfolding validate_with allowed_keys member lookup check_transfer check_amount check_memo
    check_other_recipient
numeric_recipient = refl

validate_payload_complete_example : validate_payload primitives payment ≡ accept
validate_payload_complete_example =
    validate_payload_complete primitives payment 5 refl refl (omega arith) (omega arith)
      (omega arith) (λ e. cc) bob_address

-- A document hash that is a number makes the pattern match raise.
abbrev numeric_hash : Transaction
numeric_hash = record payment {
  tx_type = TxType.notarize;
  payload = ("documentHash", Value.int (pos 5)) ∷ [];
}

numeric_hash_raises : validate_payload primitives numeric_hash ≡ err Refusal.type_error
unfolding validate_payload member allowed_keys check_notarize lookup
numeric_hash_raises = refl

-- A header with an odd number of hex digits makes the decoding raise.
abbrev odd_header : Transaction
odd_header = record payment {
  tx_type = TxType.evidence;
  payload =
      ("evidence_type", Value.text "double_sign")
      ∷ ("block_a_hash", Value.text "ab")
      ∷ ("block_b_hash", Value.text "cd")
      ∷ ("block_a_sig", Value.text "01")
      ∷ ("block_b_sig", Value.text "02")
      ∷ ("block_a_header", Value.text "abc")
      ∷ ("block_b_header", Value.text "02")
      ∷ [];
}

odd_header_raises : validate_payload primitives odd_header ≡ err Refusal.value_error
unfolding validate_payload member allowed_keys check_evidence lookup matches_hex hex_digit
    rest_matches from_hex
odd_header_raises = refl

-- An address that ends in a newline passes for one of 67 characters.
abbrev newline_address : String
newline_address = "qv1bbbbbbbbbbbbbbbbbbbbbbbbbbbbbbbbbbbbbbbbbbbbbbbbbbbbbbbbbbbbbbb\n"

newline_passes : is_address newline_address ≡ true
unfolding is_address hex_digit rest_matches
newline_passes = refl
