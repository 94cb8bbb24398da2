-- ===== src/Blocks.antt =====
-- Block processing: what `_append_block_inner` (qbit_network/core/blockchain.py) does to balances and
-- stakes. The store is None, and
-- DYNAMIC_FEE_ACTIVATION_HEIGHT is the parameter `activation`. The payload of a transaction is one
-- that validate_payload let pass: a missing amount or address reads as 0 or "".
pub mod Rollback
pub mod Changes
pub mod Effects
pub mod Reverse
pub mod Undo
pub mod Apply
pub mod Supply
pub mod Reward
pub mod Validated
mod Examples
use qbit_network.Common.{
  ℕ, zero, suc, ◌+◌, ◌-◌, ◌*◌, ◌/◌, ◌%◌, String, Bool, true, false, not, ◌&&◌, List, [], ◌∷◌, ◌++◌,
  Option, none, some, ltb, leb, ◌==◌, if◌then◌else◌, str_eq,
}
use qbit_network.Common.Int.{ℤ, pos, ◌+ℤ◌, ◌-ℤ◌, ltb_ℤ, leb_ℤ, pos_part}
use qbit_network.Common.Dict.{Dict, lookup, put, pop, get_or, contains, string_eq, nat_eq}
use qbit_network.Common.Exec.{Exec, Result, ok, err, pure, raise, modify, ◌>>=◌, ◌>>◌}
use qbit_network.Config.{TxType, tx_fees, epoch_length}
use qbit_network.Fees.{tx_weight, compute_tx_fee}
use qbit_network.Transaction.{Transaction, amount, get_text}
use qbit_network.Ledger.{Error, Ledger, credit, debit, rollback_debit, calc_block_reward}
use qbit_network.Finance.{SlashingEvent, Staking, Finance, set_ledger, set_staking}
use qbit_network.Staking.{add_stake, remove_stake, rollback_stake, rollback_unstake, discard}
use qbit_network.Staking.Slashing.{process_evidence_tx}
use qbit_network.Staking.Epochs.{process_mature_unbondings, check_epoch_transition}

pub record Block : Type 0 where
  pub index : ℕ
  pub prev_hash : String
  pub transactions : List Transaction
  pub validator : String
  pub timestamp : ℤ
  pub base_fee : ℕ
  pub state_root : String
  pub receipts_root : String
  -- the value of the property of that name
  pub block_hash : String

-- A method of the ledger, run on the whole state.
abbrev pub on_ledger : {A : Type 0} → Exec Error Ledger A → Exec Error Finance A
on_ledger m f = let (result, l) = m f.ledger in (result, set_ledger l f)

-- ---- One transaction of block `idx` ----

-- The fee that a transaction pays in a block of this base fee, dynamic or fixed.
unfoldable pub fee_of : Bool → ℕ → Transaction → ℕ
fee_of true base_fee tx =
    compute_tx_fee base_fee tx.max_fee_per_weight tx.max_priority_fee (tx_weight tx.tx_type)
fee_of false base_fee tx = tx_fees tx.tx_type

abbrev pub burn : ℕ → Ledger → Ledger
burn x l = record l { total_burned = l.total_burned +ℤ pos x }

-- The fee deduction; the fee paid.
unfoldable pub charge_fee : Bool → Block → Transaction → Exec Error Ledger ℕ
charge_fee true block tx =
    let fee = fee_of true block.base_fee tx in
    if ltb 0 (tx_weight tx.tx_type)
    then (do debit tx.sender (pos fee); credit block.validator (pos fee); pure fee)
    else pure 0
charge_fee false block tx =
    let fee = fee_of false block.base_fee tx in
    if ltb 0 fee
    then (do
      debit tx.sender (pos fee)
      credit block.validator (pos (fee / 2))
      modify (burn (fee - fee / 2))
      pure fee)
    else pure 0

-- `if amount > 0: self._debit(tx.sender, amount)`
unfoldable pub lock_amount : String → ℤ → Exec Error Ledger (Unit {0})
lock_amount sender x = if ltb_ℤ (pos 0) x then debit sender x else pure tt

-- "Type-specific balance changes", by type, sender, recipient and amount.
unfoldable pub move_by : TxType → String → String → ℤ → Exec Error Ledger (Unit {0})
move_by TxType.transfer sender recipient x = debit sender x >> credit recipient x
move_by TxType.stake sender recipient x = lock_amount sender x
move_by TxType.delegate sender recipient x = lock_amount sender x
move_by _ sender recipient x = pure tt

unfoldable pub move_amount : Transaction → Exec Error Ledger (Unit {0})
move_amount tx = move_by tx.tx_type tx.sender tx.recipient (amount tx)

module _ (mldsa_verify : List ℕ → List ℕ → List ℕ → Bool) where
  -- The branches of STAKE, DELEGATE, UNSTAKE and EVIDENCE, by the type.
  unfoldable pub apply_staking_by : TxType → ℕ → Transaction → Staking → Staking
  apply_staking_by TxType.stake idx tx s =
      add_stake tx.sender (get_text "validator_address" tx) (amount tx) s
  apply_staking_by TxType.delegate idx tx s =
      add_stake tx.sender (get_text "validator_address" tx) (amount tx) s
  apply_staking_by TxType.unstake idx tx s =
      remove_stake tx.sender (get_text "validator_address" tx) (amount tx) idx s
  apply_staking_by TxType.evidence idx tx s = process_evidence_tx mldsa_verify tx idx s
  apply_staking_by _ idx tx s = s

  unfoldable pub apply_staking : ℕ → Transaction → Staking → Staking
  apply_staking idx tx s = apply_staking_by tx.tx_type idx tx s

  -- One round of the loop over the transactions. The genesis block pays nothing.
  unfoldable pub apply_tx : Bool → Block → ℕ → Transaction → Exec Error Finance (Unit {0})
  apply_tx dyn block idx tx f =
      let staked : Exec Error Finance (Unit {0}) =
        modify (λ g. set_staking (apply_staking idx tx g.staking) g) in
      if ltb 0 idx && f.ledger.financial_active
      then (do fee ← on_ledger (charge_fee dyn block tx); on_ledger (move_amount tx); staked) f
      else staked f

  unfoldable pub apply_txs : Bool → Block → ℕ → List Transaction → Exec Error Finance (Unit {0})
  apply_txs dyn block idx [] f = (ok tt, f)
  apply_txs dyn block idx (tx ∷ txs) f =
      let rest = apply_txs dyn block idx txs in (apply_tx dyn block idx tx >> rest) f

-- The block reward, which is counted as minted and towards the rewards of the epoch.
unfoldable pub pay_reward : Block → ℕ → Exec Error Finance (Unit {0})
pay_reward block idx f =
    let reward = calc_block_reward idx f.ledger in
    if ltb 0 idx && f.ledger.financial_active && ltb_ℤ (pos 0) reward
    then (do
      on_ledger (credit block.validator reward)
      modify (λ g. record {
        ledger = record g.ledger { total_minted = g.ledger.total_minted +ℤ reward };
        staking = record g.staking {
          epoch_rewards =
              put block.validator
                (get_or block.validator 0 g.staking.epoch_rewards + pos_part reward)
                g.staking.epoch_rewards;
        };
      }))
        f
    else (ok tt, f)

-- `_append_block_inner` on balances and stakes, at height `idx`.
unfoldable pub append_block :
    (List ℕ → List ℕ → List ℕ → Bool) → ℕ → Block → ℕ → Exec Error Finance (Unit {0})
append_block mldsa_verify activation block idx = do
  process_mature_unbondings idx
  check_epoch_transition idx
  apply_txs mldsa_verify (leb activation idx) block idx block.transactions
  pay_reward block idx
