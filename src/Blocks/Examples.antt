-- ===== src/Blocks/Examples.antt =====
-- The block theorems at a concrete block with a transfer and a stake.
use qbit_network.Common.{ℕ, Bool, true, false, List, [], ◌∷◌, ◌≡◌, refl, arith, All}
use qbit_network.Common.Int.{pos, ◌-ℤ◌, ◌≤ℤ◌}
use qbit_network.Common.Dict.{lookup, put, string_eq, Distinct}
use qbit_network.Common.Exec.{Outcome, ok}
use qbit_network.Config.{TxType, tx_weights, max_supply}
use qbit_network.Fees.{tx_weight, compute_tx_fee}
use qbit_network.Ledger.{credit, debit}
use qbit_network.Finance.{Finance, supply_invariant}
use qbit_network.Transaction.{Transaction, Value, get_int}
use qbit_network.Blocks.{
  Block, fee_of, charge_fee, lock_amount, move_by, move_amount, apply_tx, apply_txs, pay_reward,
}
use qbit_network.Blocks.Rollback.{revert_txs}
use qbit_network.Blocks.Undo.{IsPayable}
use qbit_network.Blocks.Apply.{SameMoney, revert_txs-apply_txs}
use qbit_network.Blocks.Supply.{apply_tx_conserves}
use qbit_network.Blocks.Reward.{pay_reward_conserves}

abbrev finance : Finance
finance = record {
  ledger = record {
    balances = ("alice", pos 5_000_000_000) ∷ ("val", pos 30) ∷ [];
    total_minted = pos 5_000_000_030;
    total_burned = pos 0;
    financial_active = true;
  };
  staking = record {
    stakes = [];
    total_stake = [];
    unbonding = [];
    current_epoch = 0;
    epoch_validators = [];
    epochs = [];
    slashed_validators = [];
    slashing_events = [];
    processed_evidence = [];
    epoch_rewards = [];
    validator_commission = [];
    last_epoch_distributions = [];
    validator_registry = [];
    consensus_validators = [];
  };
}

abbrev payment : Transaction
payment = record {
  tx_type = TxType.transfer;
  sender = "alice";
  recipient = "bob";
  timestamp = pos 1;
  payload = ("amount", Value.int (pos 9)) ∷ [];
  signature = [];
  sender_pubkey = [];
  nonce = pos 0;
  chain_id = "qbit";
  max_fee_per_weight = 12;
  max_priority_fee = 1;
  tx_id = "payment";
}

abbrev staking : Transaction
staking = record payment {
  tx_type = TxType.stake;
  recipient = "";
  payload = ("amount", Value.int (pos 4)) ∷ ("validator_address", Value.text "val") ∷ [];
  tx_id = "staking";
}

abbrev block : Block
block = record {
  index = 1;
  prev_hash = "genesis";
  transactions = payment ∷ staking ∷ [];
  validator = "val";
  timestamp = pos 2;
  base_fee = 10;
  state_root = "";
  receipts_root = "";
  block_hash = "block";
}

abbrev accepts_all : List ℕ → List ℕ → List ℕ → Bool
accepts_all key message signature = true

distinct : Distinct finance.ledger.balances
unfolding lookup
distinct = (refl, (refl, tt))

payable : All (IsPayable true block) (payment ∷ staking ∷ [])
unfolding get_int lookup
payable = (omega arith, (omega arith, tt))

block_returns : (apply_txs accepts_all true block 1 (payment ∷ staking ∷ []) finance).0 ≡ ok tt
unfolding apply_txs lookup get_int apply_tx charge_fee tx_weight tx_weights debit fee_of
    compute_tx_fee ◌-ℤ◌ credit move_amount move_by put lock_amount
block_returns = refl

revert_txs-apply_txs_example :
    Outcome
      (λ _ f'.
        Outcome
          (λ _ l. SameMoney finance.ledger l)
          (λ e l. ⊥)
          (revert_txs true block (payment ∷ staking ∷ []) f'.ledger))
      (λ e f'. Unit {0})
      (apply_txs accepts_all true block 1 (payment ∷ staking ∷ []) finance)
revert_txs-apply_txs_example =
    revert_txs-apply_txs accepts_all true block 1 (payment ∷ staking ∷ []) finance refl refl
      distinct payable

apply_tx_conserves_example :
    Outcome
      (λ _ f'. supply_invariant f' ≡ supply_invariant finance)
      (λ e f'. Unit {0})
      (apply_tx accepts_all false block 1 payment finance)
apply_tx_conserves_example =
    apply_tx_conserves accepts_all false block 1 payment finance refl refl distinct tt

pay_reward_conserves_example :
    Outcome
      (λ _ f'.
        (supply_invariant f' ≡ supply_invariant finance)
        × (f'.ledger.total_minted ≤ℤ pos max_supply))
      (λ e f'. ⊥)
      (pay_reward block 1 finance)
pay_reward_conserves_example = pay_reward_conserves block 1 finance distinct (omega arith)
