-- ===== src/Payload/Validate.antt =====
-- Transaction._ALLOWED_KEYS and the frame of validate_payload: size, keys, the guards on amounts,
-- and the branch of the transaction's type.
use qbit_network.Common.{
  ℕ, String, Bool, true, false, not, ◌||◌, ◌&&◌, List, [], ◌∷◌, Option, none, some, ltb,
}
use qbit_network.Common.Int.{ℤ, pos, ltb_ℤ}
use qbit_network.Common.Dict.{Dict, lookup, string_eq}
use qbit_network.Config.{
  TxType, max_tx_payload_size, evidence_max_payload, max_tx_amount, max_supply,
}
use qbit_network.Staking.{member}
use qbit_network.Transaction.{Transaction, Primitives, Value, as_int}
use qbit_network.Payload.{Refusal, Checked, refuse_if}
use qbit_network.Payload.Documents.{check_notarize, check_store, check_share}
use qbit_network.Payload.Keys.{check_register_key, check_register_validator, check_revoke_key}
use qbit_network.Payload.Amounts.{
  check_stake, check_transfer, check_mint_token, check_transfer_token,
}
use qbit_network.Payload.Evidence.{check_evidence}
use qbit_network.Payload.Issue.{check_issue_token}

unfoldable pub allowed_keys : TxType → List String
allowed_keys TxType.register_key = "encryption_pk" ∷ []
allowed_keys TxType.register_validator =
    "validator_pubkey" ∷ "validator_address" ∷ "commission" ∷ []
allowed_keys TxType.revoke_key = "key_type" ∷ "reason" ∷ []
allowed_keys TxType.notarize = "documentHash" ∷ "metadata" ∷ []
allowed_keys TxType.store = "documentHash" ∷ "cid" ∷ "metadata" ∷ []
allowed_keys TxType.share = "cid" ∷ "encapsulatedKey" ∷ "expires" ∷ []
allowed_keys TxType.stake = "amount" ∷ "validator_address" ∷ []
allowed_keys TxType.delegate = "amount" ∷ "validator_address" ∷ []
allowed_keys TxType.unstake = "amount" ∷ "validator_address" ∷ []
allowed_keys TxType.evidence =
    "evidence_type" ∷ "block_a_hash" ∷ "block_b_hash" ∷ "block_a_sig" ∷ "block_b_sig"
    ∷ "block_index" ∷ "validator_address" ∷ "block_a_header" ∷ "block_b_header" ∷ []
allowed_keys TxType.transfer = "amount" ∷ "memo" ∷ []
allowed_keys TxType.issue_token =
    "name" ∷ "symbol" ∷ "decimals" ∷ "max_supply" ∷ "transferable" ∷ []
allowed_keys TxType.mint_token = "token_id" ∷ "amount" ∷ []
allowed_keys TxType.transfer_token = "token_id" ∷ "amount" ∷ "memo" ∷ []

-- `set(payload.keys()) - allowed`, as a test that it is not empty.
unfoldable pub has_extra_keys : List String → Dict String Value → Bool
has_extra_keys allowed [] = false
has_extra_keys allowed ((k, v) ∷ payload) = not (member k allowed) || has_extra_keys allowed payload

abbrev int_exceeds : Option ℤ → ℕ → Bool
int_exceeds none limit = false
int_exceeds (some n) limit = ltb_ℤ (pos limit) n

-- `isinstance(v, int) and v > limit`
abbrev pub exceeds : Option Value → ℕ → Bool
exceeds none limit = false
exceeds (some v) limit = int_exceeds (as_int v) limit

-- The types that the guards on the amounts name.
abbrev pub bears_amount : TxType → Bool
bears_amount TxType.transfer = true
bears_amount TxType.stake = true
bears_amount TxType.delegate = true
bears_amount TxType.unstake = true
bears_amount TxType.mint_token = true
bears_amount TxType.transfer_token = true
bears_amount _ = false

abbrev pub bears_value : TxType → Bool
bears_value TxType.transfer = true
bears_value TxType.stake = true
bears_value TxType.delegate = true
bears_value TxType.mint_token = true
bears_value _ = false

abbrev pub issues : TxType → Bool
issues TxType.issue_token = true
issues _ = false

-- The guards on the amounts.
unfoldable pub guard_amounts : TxType → Dict String Value → Checked → Checked
guard_amounts t payload k =
    refuse_if (bears_amount t && exceeds (lookup "amount" payload) max_tx_amount)
      Refusal.exceeds_max_tx_amount
      (refuse_if (issues t && exceeds (lookup "max_supply" payload) max_tx_amount)
        Refusal.supply_exceeds_max_tx_amount
        (refuse_if (bears_value t && exceeds (lookup "amount" payload) max_supply)
          Refusal.exceeds_max_supply k))

-- `max_size`
abbrev pub max_size : TxType → ℕ
max_size TxType.evidence = evidence_max_payload
max_size _ = max_tx_payload_size

module _ (p : Primitives) where
  -- The branches.
  unfoldable pub check_by : TxType → String → Value → Dict String Value → Checked
  check_by TxType.notarize sender recipient payload = check_notarize payload
  check_by TxType.store sender recipient payload = check_store payload
  check_by TxType.share sender recipient payload = check_share payload
  check_by TxType.register_key sender recipient payload = check_register_key payload
  check_by TxType.register_validator sender recipient payload =
      check_register_validator p.derive_address sender payload
  check_by TxType.revoke_key sender recipient payload = check_revoke_key payload
  check_by TxType.stake sender recipient payload = check_stake payload
  check_by TxType.delegate sender recipient payload = check_stake payload
  check_by TxType.unstake sender recipient payload = check_stake payload
  check_by TxType.transfer sender recipient payload = check_transfer sender recipient payload
  check_by TxType.evidence sender recipient payload = check_evidence p.sha3_hex payload
  check_by TxType.issue_token sender recipient payload = check_issue_token payload
  check_by TxType.mint_token sender recipient payload = check_mint_token recipient payload
  check_by TxType.transfer_token sender recipient payload =
      check_transfer_token sender recipient payload

  -- `validate_payload` of an object whose recipient is any JSON value.
  unfoldable pub validate_with : Transaction → Value → Checked
  unfolding has_extra_keys guard_amounts check_by
  validate_with tx recipient =
      refuse_if (ltb (max_size tx.tx_type) (p.json_size tx.payload)) Refusal.payload_too_large (
        refuse_if (has_extra_keys (allowed_keys tx.tx_type) tx.payload) Refusal.unknown_payload_keys
          (guard_amounts tx.tx_type tx.payload
            (check_by tx.tx_type tx.sender recipient tx.payload)))

  -- The same of one whose recipient is a text.
  unfoldable pub validate_payload : Transaction → Checked
  unfolding validate_with
  validate_payload tx = validate_with tx (Value.text tx.recipient)
