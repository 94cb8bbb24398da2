-- ===== src/Consensus/Validate.antt =====
-- ProofOfAuthority.validate_block of qbit_network/core/consensus.py. The values that the chain
-- injects are fields of Poa: `none` where the source has None. Block.verify_signature, the clock
-- and DYNAMIC_FEE_ACTIVATION_HEIGHT are parameters. A payload check that raises ends the
-- validation as `invalid_payload` with the exception.
use Prim.Native.String.{◌++◌}
use qbit_network.Common.{
  ℕ, ◌+◌, ◌*◌, String, Bool, true, false, not, ◌&&◌, ◌||◌, List, [], ◌∷◌, Option, none, some, ltb,
  leb, ◌==◌, if◌then◌else◌, str_eq, length, sum_by,
}
use qbit_network.Common.Int.{ℤ, pos, negsuc, ◌+ℤ◌, ltb_ℤ, leb_ℤ, eqb_ℤ}
use qbit_network.Common.Dict.{Dict, lookup, put, get_or, contains, string_eq}
use qbit_network.Common.Exec.{Result, ok, err, accept, refuse_if}
use qbit_network.Config.{
  main_chain_id, max_block_drift, max_block_weight, max_self_tx_weight_ratio, max_tx_per_block,
  max_tx_wire_size, max_block_size, initial_base_fee, target_block_weight, tx_weights,
}
use qbit_network.Transaction.{Transaction, Primitives, verify}
use qbit_network.Payload.{Refusal}
use qbit_network.Payload.Validate.{validate_payload}
use qbit_network.Fees.{compute_base_fee, effective_block_weight, block_total_weight}
use qbit_network.Staking.{member}
use qbit_network.Blocks.{Block}
use qbit_network.Consensus.{Validators, is_validator, select_validator}

pub data Invalid : Type 0 where
  genesis_mismatch parent_required wrong_index prev_hash_mismatch : Invalid
  timestamp_not_after_parent timestamp_in_future unknown_validator validator_revoked : Invalid
  wrong_turn block_signature_invalid base_fee_mismatch overweight self_overweight : Invalid
  too_many_txs no_txs estimated_too_large : Invalid
  tx_signature_invalid wrong_chain_id duplicate_tx tx_in_chain fee_too_low tx_revoked : Invalid
  nonce_gap nonce_mismatch : Invalid
  invalid_payload : Refusal → Invalid
  key_error : Invalid

pub record Poa : Type 0 where
  pub validators : Validators
  pub genesis_hash : String
  pub chain_nonces : Option (Dict String ℤ)
  pub chain_tx_ids : Option (List String)
  pub revoked_keys : Option (List String)
  -- what the injected callback returns
  pub active_validators : List (String × ℕ)

abbrev pub Verdict : Type 0
Verdict = Result Invalid (Unit {0})

abbrev pub in_option : String → Option (List String) → Bool
in_option x none = false
in_option x (some l) = member x l

-- `f"{address}:signing" in self._revoked_keys`, if there is such a dict.
unfoldable pub signing_revoked : String → Poa → Bool
signing_revoked address c = in_option (address ++ ":signing") c.revoked_keys

abbrev pub check_payload : Result Refusal (Unit {0}) → Verdict → Verdict
check_payload (ok x) k = k
check_payload (err r) k = err (Invalid.invalid_payload r)

-- `prev_nonce is not None and tx.nonce != prev_nonce + 1`
abbrev pub has_gap : Option ℤ → ℤ → Bool
has_gap none nonce = false
has_gap (some prev) nonce = not (eqb_ℤ nonce (prev +ℤ pos 1))

-- `if sender not in first: first[sender] = nonce`
abbrev pub set_first : String → ℤ → Dict String ℤ → Dict String ℤ
set_first sender nonce first = if contains sender first then first else put sender nonce first

-- `chain_nonces.get(sender, -1) + 1`
abbrev pub next_nonce : String → Dict String ℤ → ℤ
next_nonce sender chain = get_or sender (negsuc 0) chain +ℤ pos 1

abbrev pub check_start : Option ℤ → ℤ → Verdict → Verdict
check_start none expected k = err Invalid.key_error
check_start (some actual) expected k =
    refuse_if (not (eqb_ℤ actual expected)) Invalid.nonce_mismatch k

-- The loop over the senders.
unfoldable pub check_starts : Dict String ℤ → Dict String ℤ → Dict String ℤ → Verdict
check_starts chain first [] = accept
check_starts chain first ((sender, last) ∷ nonces) =
    check_start (lookup sender first) (next_nonce sender chain) (check_starts chain first nonces)

abbrev pub check_nonces : Option (Dict String ℤ) → Dict String ℤ → Dict String ℤ → Verdict
check_nonces none first nonces = accept
check_nonces (some chain) first nonces = check_starts chain first nonces

-- The base fee that a block must have after its parent.
unfoldable pub expected_base_fee : ℕ → ℕ → Block → ℕ
expected_base_fee activation index parent =
    let pre = parent.index == 0 || ltb parent.index activation in
    if index == activation || pre
    then initial_base_fee
    else compute_base_fee parent.base_fee
        (effective_block_weight parent.transactions parent.validator) target_block_weight

-- The weight of the transactions of one sender.
unfoldable pub self_weight : List Transaction → String → ℕ
self_weight txs validator =
    sum_by (λ tx. if str_eq tx.sender validator then tx_weights tx.tx_type else 0) txs

-- The part for dynamic fees.
unfoldable pub check_fees : Bool → ℕ → Block → Block → Verdict → Verdict
check_fees false activation block parent k = k
check_fees true activation block parent k =
    let total_weight = block_total_weight block.transactions in
    let own = self_weight block.transactions block.validator in
    refuse_if (not (block.base_fee == expected_base_fee activation block.index parent))
      Invalid.base_fee_mismatch
      (refuse_if (ltb max_block_weight total_weight) Invalid.overweight (
        refuse_if (ltb 0 total_weight && ltb (total_weight * max_self_tx_weight_ratio) (own * 100))
          Invalid.self_overweight k))

abbrev pub is_null : List Transaction → Bool
is_null [] = true
is_null (tx ∷ txs) = false

-- The limits on the number of transactions.
unfoldable pub check_size : Bool → List Transaction → Verdict → Verdict
check_size dyn txs k = refuse_if (ltb max_tx_per_block (length txs)) Invalid.too_many_txs (
    refuse_if (is_null txs && not dyn) Invalid.no_txs (
      refuse_if (ltb (max_block_size * 2) (500 + length txs * max_tx_wire_size))
        Invalid.estimated_too_large k))

module _ (p : Primitives) (c : Poa) where
  -- A round of the loop over the transactions, up to the update of the nonces.
  unfoldable pub check_tx : Bool → ℕ → List String → Dict String ℤ → Transaction → Verdict → Verdict
  unfolding signing_revoked
  check_tx dyn base_fee seen nonces tx k =
      refuse_if (not (verify p tx)) Invalid.tx_signature_invalid (
        refuse_if (not (str_eq tx.chain_id main_chain_id)) Invalid.wrong_chain_id (
          refuse_if (member tx.tx_id seen) Invalid.duplicate_tx (
            refuse_if (in_option tx.tx_id c.chain_tx_ids) Invalid.tx_in_chain (
              check_payload (validate_payload p tx) (
                refuse_if
                  (dyn && ltb 0 (tx_weights tx.tx_type) && ltb tx.max_fee_per_weight base_fee)
                  Invalid.fee_too_low
                  (refuse_if (signing_revoked tx.sender c) Invalid.tx_revoked (
                    refuse_if (has_gap (lookup tx.sender nonces) tx.nonce) Invalid.nonce_gap
                      k)))))))

  -- The loop, with seen_ids, sender_nonces and sender_first_nonce so far, and the check after it.
  unfoldable pub check_txs :
      Bool → ℕ → List Transaction → List String → Dict String ℤ → Dict String ℤ → Verdict
  unfolding check_tx check_starts
  check_txs dyn base_fee [] seen nonces first = check_nonces c.chain_nonces first nonces
  check_txs dyn base_fee (tx ∷ txs) seen nonces first = check_tx dyn base_fee seen nonces tx (
      check_txs dyn base_fee txs (tx.tx_id ∷ seen) (put tx.sender tx.nonce nonces)
        (set_first tx.sender tx.nonce first))

-- `expected and block.validator != expected`
abbrev pub wrong_validator : Option String → String → Bool
wrong_validator none validator = false
wrong_validator (some expected) validator =
    not (str_eq expected "") && not (str_eq validator expected)

module _ (block_verifies : List ℕ → Block → Bool) where
  abbrev pub check_signature : Option (List ℕ) → Block → Verdict → Verdict
  check_signature none block k = err Invalid.key_error
  check_signature (some pk) block k =
      refuse_if (not (block_verifies pk block)) Invalid.block_signature_invalid k

  -- The checks of header and validator.
  unfoldable pub check_header : (String → ℕ → ℕ) → Poa → ℤ → Block → Block → Verdict → Verdict
  unfolding signing_revoked
  check_header seed_int c now block parent k =
      refuse_if (not (block.index == parent.index + 1)) Invalid.wrong_index (
        refuse_if (not (str_eq block.prev_hash parent.block_hash)) Invalid.prev_hash_mismatch (
          refuse_if (leb_ℤ block.timestamp parent.timestamp) Invalid.timestamp_not_after_parent (
            refuse_if (ltb_ℤ (now +ℤ pos max_block_drift) block.timestamp)
              Invalid.timestamp_in_future
              (refuse_if (not (is_validator block.validator c.validators)) Invalid.unknown_validator
                (refuse_if (signing_revoked block.validator c) Invalid.validator_revoked (
                  refuse_if
                    (wrong_validator
                      (select_validator seed_int block.index (some parent.timestamp)
                        parent.block_hash block.timestamp c.active_validators c.validators)
                      block.validator)
                    Invalid.wrong_turn
                    (check_signature (lookup block.validator c.validators) block k)))))))

  -- `validate_block` of a block after the genesis block.
  unfoldable pub validate_child :
      Primitives → (String → ℕ → ℕ) → ℕ → Poa → ℤ → Block → Block → Verdict
  unfolding check_header check_fees check_size check_txs
  validate_child p seed_int activation c now block parent =
      let dyn = leb activation block.index && ltb 0 block.index in
      check_header seed_int c now block parent (
        check_fees dyn activation block parent (
          check_size dyn block.transactions
            (check_txs p c dyn block.base_fee block.transactions [] [] [])))

  unfoldable pub validate_block :
      Primitives → (String → ℕ → ℕ) → ℕ → Poa → ℤ → Block → Option Block → Verdict
  unfolding validate_child
  validate_block p seed_int activation c now block parent =
      if block.index == 0
      then refuse_if
          (not (str_eq c.genesis_hash "") && not (str_eq block.block_hash c.genesis_hash))
          Invalid.genesis_mismatch accept
      else elim parent [
        | none ↦ err Invalid.parent_required
        | some q ↦ validate_child p seed_int activation c now block q
      ]
