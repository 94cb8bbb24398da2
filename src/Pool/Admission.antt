-- ===== src/Pool/Admission.antt =====
-- The checks of submit_tx by subject: addresses and validators, money, tokens.
use qbit_network.Common.{
  ◌*◌, String, Bool, true, false, not, ◌&&◌, ◌||◌, List, [], ◌∷◌, Option, none, some, ltb,
  if◌then◌else◌, str_eq,
}
use qbit_network.Common.Int.{ℤ, pos, ◌+ℤ◌, ◌-ℤ◌, ltb_ℤ}
use qbit_network.Common.Dict.{lookup, contains, get_or, string_eq, pair_eq}
use qbit_network.Common.Exec.{Result, err, refuse_if}
use qbit_network.Config.{TxType, tx_fees, token_activation_height}
use qbit_network.Transaction.{Transaction, amount, get_text, is_staking}
use qbit_network.Payload.{Refusal}
use qbit_network.Fees.{tx_weight}
use qbit_network.Ledger.{get_balance, pending_debits}
use qbit_network.Staking.{member, get_staker_info}
use qbit_network.Tokens.{Token}
use qbit_network.Pool.{Pool, Chain, has_blocks, is_key_revoked}

pub data Rejection : Type 0 where
  pool_full wrong_chain_id sender_revoked signature_invalid duplicate_in_chain : Rejection
  duplicate_in_pool exceeds_max_supply recipient_required validator_not_registered : Rejection
  validator_slashed insufficient_stake fee_below_base insufficient_balance : Rejection
  already_slashed already_revoked genesis_validator tokens_inactive symbol_exists : Rejection
  symbol_pending no_such_token not_issuer mint_exceeds_supply not_transferable : Rejection
  insufficient_tokens invalid_nonce timestamp_ahead timestamp_old : Rejection
  invalid_payload : Refusal → Rejection

abbrev pub Admitted : Type 0
Admitted = Result Rejection (Unit {0})

abbrev pub is_registered_validator : String → Chain → Bool
is_registered_validator address c = contains address c.finance.staking.validator_registry

-- The cap on the amount, for the types that submit_tx names.
abbrev pub capped : TxType → Bool
capped TxType.transfer = true
capped TxType.stake = true
capped TxType.delegate = true
capped TxType.mint_token = true
capped _ = false

-- STAKE and DELEGATE, UNSTAKE, and SHARE, by the type.
unfoldable pub check_target : TxType → Transaction → Chain → Admitted → Admitted
check_target TxType.share tx c k = refuse_if (str_eq tx.recipient "") Rejection.recipient_required k
check_target TxType.stake tx c k =
    let vaddr = get_text "validator_address" tx in
    refuse_if (not (is_registered_validator vaddr c)) Rejection.validator_not_registered
      (refuse_if (member vaddr c.finance.staking.slashed_validators) Rejection.validator_slashed k)
check_target TxType.delegate tx c k =
    let vaddr = get_text "validator_address" tx in
    refuse_if (not (is_registered_validator vaddr c)) Rejection.validator_not_registered
      (refuse_if (member vaddr c.finance.staking.slashed_validators) Rejection.validator_slashed k)
check_target TxType.unstake tx c k =
    let vaddr = get_text "validator_address" tx in
    refuse_if (not (is_registered_validator vaddr c)) Rejection.validator_not_registered (
      refuse_if (ltb_ℤ (pos (get_staker_info tx.sender vaddr c.finance.staking)) (amount tx))
        Rejection.insufficient_stake k)
check_target t tx c k = k

-- `get_balance(sender) - pending < need`
abbrev pub refuse_uncovered : ℤ → Transaction → Chain → Pool → Admitted → Admitted
refuse_uncovered need tx c p k =
    let pending = pending_debits tx.sender p.pending_debits_cache in
    let available = get_balance tx.sender c.finance.ledger -ℤ pending in
    refuse_if (ltb_ℤ available need) Rejection.insufficient_balance k

-- `extra_debit`, with the check of a recipient before it.
abbrev pub extra_debit : TxType → Transaction → ℤ
extra_debit TxType.transfer tx = amount tx
extra_debit t tx = if is_staking t then amount tx else pos 0

abbrev pub is_transfer : TxType → Bool
is_transfer TxType.transfer = true
is_transfer _ = false

-- The balance checks under dynamic fees.
unfoldable pub check_dynamic_balance : Transaction → Chain → Pool → Admitted → Admitted
check_dynamic_balance tx c p k =
    let w = tx_weight tx.tx_type in
    let pays =
      refuse_if (is_transfer tx.tx_type && str_eq tx.recipient "") Rejection.recipient_required (
        refuse_uncovered (pos (tx.max_fee_per_weight * w) +ℤ extra_debit tx.tx_type tx) tx c p k) in
    let moves =
      refuse_if (str_eq tx.recipient "") Rejection.recipient_required
        (refuse_uncovered (amount tx) tx c p k) in
    if ltb 0 w then pays else if is_transfer tx.tx_type then moves else k

-- The balance checks under the fixed fees.
unfoldable pub check_fixed_balance : Transaction → Chain → Pool → Admitted → Admitted
check_fixed_balance tx c p k =
    let fee = tx_fees tx.tx_type in
    let moves =
      refuse_if (str_eq tx.recipient "") Rejection.recipient_required
        (refuse_uncovered (amount tx +ℤ pos fee) tx c p k) in
    let pays = refuse_uncovered (pos fee +ℤ extra_debit tx.tx_type tx) tx c p k in
    if is_transfer tx.tx_type then moves else if ltb 0 fee then pays else k

unfoldable pub check_balance : Bool → Transaction → Chain → Pool → Admitted → Admitted
check_balance dyn tx c p k =
    if c.finance.ledger.financial_active
    then (if dyn then check_dynamic_balance tx c p k else check_fixed_balance tx c p k)
    else k

-- `genesis_block and tx.sender == genesis_block.validator`
abbrev pub is_genesis_validator : Option String → String → Bool
is_genesis_validator none sender = false
is_genesis_validator (some validator) sender = str_eq sender validator

-- EVIDENCE and REVOKE_KEY.
unfoldable pub check_standing : TxType → Transaction → Chain → Admitted → Admitted
check_standing TxType.evidence tx c k =
    let vaddr = get_text "validator_address" tx in
    refuse_if (not (is_registered_validator vaddr c)) Rejection.validator_not_registered
      (refuse_if (member vaddr c.finance.staking.processed_evidence) Rejection.already_slashed k)
check_standing TxType.revoke_key tx c k =
    let key_type = get_text "key_type" tx in
    refuse_if (is_key_revoked tx.sender key_type c) Rejection.already_revoked (
      refuse_if
        ((str_eq key_type "validator" || str_eq key_type "signing")
          && has_blocks c
          && is_genesis_validator c.genesis_validator tx.sender)
        Rejection.genesis_validator k)
check_standing t tx c k = k

-- An ISSUE_TOKEN of the pool with this symbol.
unfoldable pub symbol_in_pool : String → List Transaction → Bool
symbol_in_pool symbol [] = false
symbol_in_pool symbol (tx ∷ txs) =
    is_issue tx.tx_type && str_eq (get_text "symbol" tx) symbol || symbol_in_pool symbol txs
  where
    is_issue : TxType → Bool
    is_issue TxType.issue_token = true
    is_issue _ = false

-- The amounts of the pool's transactions that a test selects.
unfoldable pub pending_amount : (Transaction → Bool) → List Transaction → ℤ
pending_amount selects [] = pos 0
pending_amount selects (tx ∷ txs) =
    if selects tx then amount tx +ℤ pending_amount selects txs else pending_amount selects txs

abbrev pub is_mint_of : String → Transaction → Bool
is_mint_of tid tx = of_type tx.tx_type && str_eq (get_text "token_id" tx) tid
  where
    of_type : TxType → Bool
    of_type TxType.mint_token = true
    of_type _ = false

abbrev pub is_transfer_of : String → String → Transaction → Bool
is_transfer_of tid sender tx =
    of_type tx.tx_type && str_eq (get_text "token_id" tx) tid && str_eq tx.sender sender
  where
    of_type : TxType → Bool
    of_type TxType.transfer_token = true
    of_type _ = false

unfoldable pub check_mint : Option Token → Transaction → Pool → Admitted → Admitted
unfolding pending_amount
check_mint none tx p k = err Rejection.no_such_token
check_mint (some reg) tx p k =
    let pending_mint = pending_amount (is_mint_of (get_text "token_id" tx)) p.tx_pool in
    refuse_if (not (str_eq reg.issuer tx.sender)) Rejection.not_issuer (
      refuse_if
        (ltb_ℤ (pos 0) reg.max_supply
          && ltb_ℤ reg.max_supply (reg.total_minted +ℤ pending_mint +ℤ amount tx))
        Rejection.mint_exceeds_supply k)

unfoldable pub check_token_transfer :
    Option Token → Transaction → Chain → Pool → Admitted → Admitted
unfolding pending_amount
check_token_transfer none tx c p k = err Rejection.no_such_token
check_token_transfer (some reg) tx c p k =
    let tid = get_text "token_id" tx in
    let bal = get_or (tid, tx.sender) (pos 0) c.tokens.balances in
    let pending = pending_amount (is_transfer_of tid tx.sender) p.tx_pool in
    refuse_if (not reg.transferable) Rejection.not_transferable
      (refuse_if (ltb_ℤ (bal -ℤ pending) (amount tx)) Rejection.insufficient_tokens k)

-- The token checks, each behind the activation height.
unfoldable pub check_tokens : TxType → Transaction → Chain → Pool → Admitted → Admitted
unfolding symbol_in_pool check_mint check_token_transfer
check_tokens TxType.issue_token tx c p k =
    let symbol = get_text "symbol" tx in
    refuse_if (ltb c.next_height token_activation_height) Rejection.tokens_inactive (
      refuse_if (contains symbol c.tokens.by_symbol) Rejection.symbol_exists
        (refuse_if (symbol_in_pool symbol p.tx_pool) Rejection.symbol_pending k))
check_tokens TxType.mint_token tx c p k =
    refuse_if (ltb c.next_height token_activation_height) Rejection.tokens_inactive
      (check_mint (lookup (get_text "token_id" tx) c.tokens.registry) tx p k)
check_tokens TxType.transfer_token tx c p k =
    refuse_if (ltb c.next_height token_activation_height) Rejection.tokens_inactive
      (check_token_transfer (lookup (get_text "token_id" tx) c.tokens.registry) tx c p k)
check_tokens t tx c p k = k
