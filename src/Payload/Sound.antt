-- ===== src/Payload/Sound.antt =====
-- What validate_payload guarantees of a transaction that it accepts, by the type of the
-- transaction, and what it refuses.
use qbit_network.Common.{
  ◌≤◌, String, true, false, not, ◌&&◌, List, [], ◌∷◌, ◌≡◌, ◌≢◌, str_eq, ltb, length, arith, All,
}
use qbit_network.Common.Dict.{Dict, lookup, string_eq}
use qbit_network.Common.Hex.{codes}
use qbit_network.Config.{TxType, max_supply, max_tx_amount}
use qbit_network.Staking.{member}
use qbit_network.Transaction.{Transaction, Primitives, Value}
use qbit_network.Payload.{Checked, accept, refuse_if_lem, is_address}
use qbit_network.Payload.Amounts.{
  check_transfer, check_recipient, check_mint_token, check_transfer_token,
}
use qbit_network.Payload.Facts.{
  text_of, HasAmount, HasStake, HasTokenId, HasTwoHeaders, HasOwnKey, check_amount_lem,
  check_stake_lem, check_memo_lem, check_other_recipient_lem, check_token_id_lem,
  check_evidence_lem, check_register_validator_lem,
}
use qbit_network.Payload.Validate.{
  allowed_keys, has_extra_keys, guard_amounts, bears_amount, bears_value, issues, exceeds, max_size,
  check_by, validate_payload,
}

-- The guarantee for the types that move money, stakes, tokens or the standing of a validator.
abbrev pub IsSound : Primitives → TxType → String → String → Dict String Value → Type 0
IsSound p TxType.transfer sender recipient payload =
    HasAmount payload
    × (recipient ≢ sender)
    × (is_address recipient ≡ true)
    × (length (codes (text_of "memo" payload)) ≤ 256)
IsSound p TxType.stake sender recipient payload = HasStake payload
IsSound p TxType.delegate sender recipient payload = HasStake payload
IsSound p TxType.unstake sender recipient payload = HasStake payload
IsSound p TxType.mint_token sender recipient payload =
    HasTokenId payload × HasAmount payload × (is_address recipient ≡ true)
IsSound p TxType.transfer_token sender recipient payload =
    HasTokenId payload
    × HasAmount payload
    × (recipient ≢ sender)
    × (is_address recipient ≡ true)
    × (length (codes (text_of "memo" payload)) ≤ 256)
IsSound p TxType.evidence sender recipient payload = HasTwoHeaders p.sha3_hex payload
IsSound p TxType.register_validator sender recipient payload =
    HasOwnKey p.derive_address sender payload
IsSound p _ sender recipient payload = Unit {0}

check_transfer_lem :
    (sender recipient : String) (payload : Dict String Value)
    → check_transfer sender (Value.text recipient) payload ≡ accept
    → HasAmount payload
      × (recipient ≢ sender)
      × (is_address recipient ≡ true)
      × (length (codes (text_of "memo" payload)) ≤ 256)
unfolding check_transfer
check_transfer_lem sender recipient payload h =
    let (amounts, a) = check_amount_lem payload _ h in
    let (memo, b) = check_memo_lem payload _ a in
    let (other, valid, _) = check_other_recipient_lem sender recipient _ b in
    (amounts, other, valid, memo)

check_mint_token_lem :
    (recipient : String) (payload : Dict String Value)
    → check_mint_token (Value.text recipient) payload ≡ accept
    → HasTokenId payload × HasAmount payload × (is_address recipient ≡ true)
unfolding check_mint_token check_recipient
check_mint_token_lem recipient payload h =
    let (token, a) = check_token_id_lem (lookup "token_id" payload) _ h in
    let (amounts, b) = check_amount_lem payload _ a in
    let (_, c) = refuse_if_lem (str_eq recipient "") _ _ b in
    let (valid, _) = refuse_if_lem (not (is_address recipient)) _ _ c in
    (token, amounts, ground arith)

check_transfer_token_lem :
    (sender recipient : String) (payload : Dict String Value)
    → check_transfer_token sender (Value.text recipient) payload ≡ accept
    → HasTokenId payload
      × HasAmount payload
      × (recipient ≢ sender)
      × (is_address recipient ≡ true)
      × (length (codes (text_of "memo" payload)) ≤ 256)
unfolding check_transfer_token
check_transfer_token_lem sender recipient payload h =
    let (token, a) = check_token_id_lem (lookup "token_id" payload) _ h in
    let (amounts, b) = check_amount_lem payload _ a in
    let (other, valid, c) = check_other_recipient_lem sender recipient _ b in
    let (memo, _) = check_memo_lem payload _ c in (token, amounts, other, valid, memo)

extra_keys_lem :
    (allowed : List String) (payload : Dict String Value)
    → has_extra_keys allowed payload ≡ false
    → All (λ e. member e.0 allowed ≡ true) payload
unfolding has_extra_keys
extra_keys_lem allowed [] h = tt
extra_keys_lem allowed ((k, v) ∷ payload) h =
    (ground arith, extra_keys_lem allowed payload (ground arith))

guard_amounts_lem :
    (t : TxType) (payload : Dict String Value) (k : Checked)
    → guard_amounts t payload k ≡ accept
    → k ≡ accept
unfolding guard_amounts
guard_amounts_lem t payload k h =
    let amounts = lookup "amount" payload in
    let (_, a) = refuse_if_lem (bears_amount t && exceeds amounts max_tx_amount) _ _ h in
    let (_, b) =
      refuse_if_lem (issues t && exceeds (lookup "max_supply" payload) max_tx_amount) _ _ a in
    let (_, c) = refuse_if_lem (bears_value t && exceeds amounts max_supply) _ k b in c

module _ (p : Primitives) where
  check_by_lem :
      (t : TxType) (sender recipient : String) (payload : Dict String Value)
      → check_by p t sender (Value.text recipient) payload ≡ accept
      → IsSound p t sender recipient payload
  unfolding check_by
  check_by_lem TxType.transfer sender recipient payload h =
      check_transfer_lem sender recipient payload h
  check_by_lem TxType.stake sender recipient payload h = check_stake_lem payload h
  check_by_lem TxType.delegate sender recipient payload h = check_stake_lem payload h
  check_by_lem TxType.unstake sender recipient payload h = check_stake_lem payload h
  check_by_lem TxType.mint_token sender recipient payload h =
      check_mint_token_lem recipient payload h
  check_by_lem TxType.transfer_token sender recipient payload h =
      check_transfer_token_lem sender recipient payload h
  check_by_lem TxType.evidence sender recipient payload h = check_evidence_lem p.sha3_hex payload h
  check_by_lem TxType.register_validator sender recipient payload h =
      check_register_validator_lem p.derive_address sender payload h
  check_by_lem TxType.register_key sender recipient payload h = tt
  check_by_lem TxType.revoke_key sender recipient payload h = tt
  check_by_lem TxType.notarize sender recipient payload h = tt
  check_by_lem TxType.store sender recipient payload h = tt
  check_by_lem TxType.share sender recipient payload h = tt
  check_by_lem TxType.issue_token sender recipient payload h = tt

  -- An accepted payload is within the size limit of its type, has no key but the allowed ones, and:
  -- a transfer has an amount from 1 to MAX_SUPPLY, another recipient that the test of addresses
  -- accepts and a memo of at most 256 characters; a stake, delegation or unstake has an amount from
  -- MIN_STAKE to MAX_STAKE and names a validator; a mint or token transfer names a token by 32
  -- characters that the pattern of hex accepts, 32 hex digits or 31 and a newline, has an amount
  -- from 1 to MAX_SUPPLY and a recipient that the test of addresses accepts, and a token transfer
  -- goes to another recipient and has a memo of at most 256 characters; EVIDENCE holds two different
  -- headers with the claimed digests; a validator registers the key that its own address derives
  -- from.
  pub validate_payload-IsSound :
      (tx : Transaction)
      → validate_payload p tx ≡ accept
      → (p.json_size tx.payload ≤ max_size tx.tx_type)
        × All (λ e. member e.0 (allowed_keys tx.tx_type) ≡ true) tx.payload
        × IsSound p tx.tx_type tx.sender tx.recipient tx.payload
  unfolding validate_payload
  validate_payload-IsSound tx h =
      let limit = max_size tx.tx_type in
      let (fits, a) = refuse_if_lem (ltb limit (p.json_size tx.payload)) _ _ h in
      let (known, b) = refuse_if_lem (has_extra_keys (allowed_keys tx.tx_type) tx.payload) _ _ a in
      let c = guard_amounts_lem tx.tx_type tx.payload _ b in
      (
        ground arith,
        extra_keys_lem (allowed_keys tx.tx_type) tx.payload known,
        check_by_lem tx.tx_type tx.sender tx.recipient tx.payload c,
      )
