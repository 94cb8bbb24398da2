-- ===== src/Blocks/Rollback.antt =====
-- What `_rollback_block` (qbit_network/core/rollback.py) takes back of balances and stakes.
use qbit_network.Common.{
  ℕ, ◌-◌, ◌/◌, String, Bool, true, false, List, [], ◌∷◌, ltb, if◌then◌else◌, str_eq,
}
use qbit_network.Common.Int.{ℤ, pos, ◌-ℤ◌, ltb_ℤ, pos_part}
use qbit_network.Common.Dict.{put, get_or, string_eq, nat_eq}
use qbit_network.Common.Exec.{Exec, ok, pure, modify, ◌>>◌}
use qbit_network.Config.{TxType}
use qbit_network.Fees.{tx_weight}
use qbit_network.Transaction.{Transaction, amount, get_text}
use qbit_network.Ledger.{Error, Ledger, credit, rollback_debit, calc_block_reward}
use qbit_network.Finance.{SlashingEvent, Staking, Finance}
use qbit_network.Staking.{rollback_stake, rollback_unstake, discard}
use qbit_network.Blocks.{Block, fee_of}

abbrev pub unburn : ℕ → Ledger → Ledger
unburn x l = record l { total_burned = l.total_burned -ℤ pos x }

-- `if amount > 0: self._credit(tx.sender, amount)`
unfoldable pub unlock_amount : String → ℤ → Exec Error Ledger (Unit {0})
unlock_amount sender x = if ltb_ℤ (pos 0) x then credit sender x else pure tt

-- "Reverse type-specific balance changes".
unfoldable pub unmove_by : TxType → String → String → ℤ → Exec Error Ledger (Unit {0})
unmove_by TxType.transfer sender recipient x =
    modify (rollback_debit recipient x) >> credit sender x
unmove_by TxType.stake sender recipient x = unlock_amount sender x
unmove_by TxType.delegate sender recipient x = unlock_amount sender x
unmove_by _ sender recipient x = pure tt

unfoldable pub unmove_amount : Transaction → Exec Error Ledger (Unit {0})
unmove_amount tx = unmove_by tx.tx_type tx.sender tx.recipient (amount tx)

-- "Reverse fee".
unfoldable pub refund_fee : Bool → Block → Transaction → Exec Error Ledger (Unit {0})
refund_fee true block tx =
    let fee = fee_of true block.base_fee tx in
    if ltb 0 (tx_weight tx.tx_type)
    then (modify (rollback_debit block.validator (pos fee)) >> credit tx.sender (pos fee))
    else pure tt
refund_fee false block tx =
    let fee = fee_of false block.base_fee tx in
    if ltb 0 fee
    then (do
      modify (rollback_debit block.validator (pos (fee / 2)))
      modify (unburn (fee - fee / 2))
      credit tx.sender (pos fee))
    else pure tt

-- One round of the loop that reverses the balance changes.
unfoldable pub revert_tx : Bool → Block → Transaction → Exec Error Ledger (Unit {0})
revert_tx dyn block tx = unmove_amount tx >> refund_fee dyn block tx

-- The loop, over the transactions in reverse order.
unfoldable pub revert_txs : Bool → Block → List Transaction → Exec Error Ledger (Unit {0})
revert_txs dyn block [] l = (ok tt, l)
revert_txs dyn block (tx ∷ txs) l =
    let rest = revert_txs dyn block txs in (rest >> revert_tx dyn block tx) l

-- The reversal of the block reward.
unfoldable pub revert_reward : Block → Finance → Finance
revert_reward block f =
    let reward = calc_block_reward block.index f.ledger in
    if ltb_ℤ (pos 0) reward
    then (let l = rollback_debit block.validator reward f.ledger in
        record {
          ledger = record l { total_minted = l.total_minted -ℤ reward };
          staking = record f.staking {
            epoch_rewards =
                put block.validator
                  (get_or block.validator 0 f.staking.epoch_rewards - pos_part reward)
                  f.staking.epoch_rewards;
          };
        })
    else f

-- `[e for e in self._slashing_events if e["evidence_tx_id"] != tx.tx_id]`
unfoldable pub without_evidence : String → List SlashingEvent → List SlashingEvent
without_evidence tx_id [] = []
without_evidence tx_id (e ∷ l) =
    let rest = without_evidence tx_id l in if str_eq e.evidence_tx_id tx_id then rest else e ∷ rest

-- "Revert slashing": the records go, the stakes stay as the slash left them.
unfoldable pub rollback_evidence : Transaction → Staking → Staking
rollback_evidence tx s =
    let vaddr = get_text "validator_address" tx in
    if str_eq vaddr "" then s else record s {
      slashed_validators = discard vaddr s.slashed_validators;
      processed_evidence = discard vaddr s.processed_evidence;
      slashing_events = without_evidence tx.tx_id s.slashing_events;
    }

-- "Revert staking operations", for one transaction.
unfoldable pub revert_staking : Block → Transaction → Staking → Staking
revert_staking block tx s =
    let vaddr = get_text "validator_address" tx in
    elim tx.tx_type [
      | TxType.stake ↦ rollback_stake tx.sender vaddr (amount tx) s
      | TxType.delegate ↦ rollback_stake tx.sender vaddr (amount tx) s
      | TxType.unstake ↦ rollback_unstake tx.sender vaddr (amount tx) block.index s
      | TxType.evidence ↦ rollback_evidence tx s
      | _ ↦ s
    ]

unfoldable pub revert_stakings : Block → List Transaction → Staking → Staking
revert_stakings block [] s = s
revert_stakings block (tx ∷ txs) s = revert_stakings block txs (revert_staking block tx s)
