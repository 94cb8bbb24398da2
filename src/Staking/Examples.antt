-- ===== src/Staking/Examples.antt =====
-- The staking theorems at a concrete validator with one delegator.
use qbit_network.Common.{ℕ, ◌≤◌, Bool, true, List, [], ◌∷◌, none, ◌≡◌, ◌⊎◌, ◌+◌, ◌-◌, refl, arith}
use qbit_network.Common.Int.{pos, pos_part}
use qbit_network.Common.Dict.{lookup, put, pop, total_ℕ, string_eq, Distinct}
use qbit_network.Common.Exec.{Outcome}
use qbit_network.Config.{TxType}
use qbit_network.Finance.{Staking, Finance, supply_invariant, unbonding_total}
use qbit_network.Ledger.{Ledger}
use qbit_network.Transaction.{Transaction, Value, get_text}
use qbit_network.Staking.{stakes_of, get_validator_stake, get_staker_info, remove_stake, is_slashed}
use qbit_network.Staking.Slashing.{slash_of, slash_stakers, slash, process_evidence_tx}
use qbit_network.Staking.Epochs.{distribute_epoch_rewards, process_mature_unbondings}
use qbit_network.Staking.Rewards.{Grew, distribute_epoch_rewards_conserves}
use qbit_network.Staking.Supply.{immature, process_mature_unbondings_conserves}
use qbit_network.Staking.Consistency.{Agrees, remove_stake-Agrees, remove_stake_supply}
use qbit_network.Staking.Evidence.{process_evidence_tx_once}

abbrev ledger : Ledger
ledger = record {
  balances = ("val", pos 70) ∷ ("del", pos 30) ∷ [];
  total_minted = pos 100;
  total_burned = pos 0;
  financial_active = true;
}

abbrev staking : Staking
staking = record {
  stakes = ("val", ("val", 10) ∷ ("del", 30) ∷ []) ∷ [];
  total_stake = ("val", 40) ∷ [];
  unbonding =
      record { staker = "del"; validator = "val"; amount = 5; release_block = 100 }
      ∷ record { staker = "val"; validator = "val"; amount = 7; release_block = 101 }
      ∷ [];
  current_epoch = 0;
  epoch_validators = ("val", 40) ∷ [];
  epochs = (0, ("val", 40) ∷ []) ∷ [];
  slashed_validators = [];
  slashing_events = [];
  processed_evidence = [];
  epoch_rewards = ("val", 50) ∷ [];
  validator_commission = [];
  last_epoch_distributions = [];
  validator_registry = ("val", 1 ∷ []) ∷ [];
  consensus_validators = ("val", 1 ∷ []) ∷ [];
}

abbrev finance : Finance
finance = record { ledger = ledger; staking = staking }

distinct : Distinct ledger.balances
unfolding lookup
distinct = (refl, (refl, tt))

distribute_epoch_rewards_conserves_example :
    Outcome
      (λ _ f'.
        Grew (pos 0) ledger f'.ledger
        × (f'.staking.stakes ≡ staking.stakes)
        × (f'.staking.total_stake ≡ staking.total_stake)
        × (f'.staking.unbonding ≡ staking.unbonding))
      (λ e f'. ⊥)
      (distribute_epoch_rewards 0 none finance)
distribute_epoch_rewards_conserves_example =
    distribute_epoch_rewards_conserves 0 none finance distinct

process_mature_unbondings_conserves_example :
    Outcome
      (λ _ f'.
        (f'.staking.unbonding ≡ immature 100 staking.unbonding)
        × (supply_invariant f' ≡ supply_invariant finance)
        × Distinct f'.ledger.balances)
      (λ e f'. ⊥)
      (process_mature_unbondings 100 finance)
process_mature_unbondings_conserves_example =
    process_mature_unbondings_conserves 100 finance distinct refl

agrees : Agrees "val" staking
unfolding get_validator_stake total_ℕ lookup
agrees = refl

enough : pos_part (pos 30) ≤ get_staker_info "del" "val" staking
unfolding get_staker_info lookup
enough = omega arith

remove_stake-Agrees_example : Agrees "val" (remove_stake "del" "val" (pos 30) 3 staking)
remove_stake-Agrees_example = remove_stake-Agrees "val" "del" "val" (pos 30) 3 staking enough agrees

-- 60 of the 100 were never staked.
remove_stake_supply_example :
    total_ℕ (remove_stake "del" "val" (pos 100) 3 staking).total_stake
      + unbonding_total (remove_stake "del" "val" (pos 100) 3 staking).unbonding
    ≡ total_ℕ staking.total_stake
      + unbonding_total staking.unbonding
      + (100 - get_validator_stake "val" staking)
remove_stake_supply_example = remove_stake_supply "del" "val" (pos 100) 3 staking refl refl

-- Two stakers of 1 each lose it all, and the total keeps 1.
abbrev two_small : Staking
two_small = record staking {
  stakes = ("val", ("val", 1) ∷ ("del", 1) ∷ []) ∷ [];
  total_stake = ("val", 2) ∷ [];
}

slashed_apart :
    (total_ℕ (stakes_of "val" (slash "val" "tx" 9 two_small)) ≡ 0)
    × (get_validator_stake "val" (slash "val" "tx" 9 two_small) ≡ 1)
unfolding slash slash_stakers slash_of get_validator_stake lookup put pop total_ℕ
slashed_apart = (refl, refl)

abbrev evidence : Transaction
evidence = record {
  tx_type = TxType.evidence;
  sender = "del";
  recipient = "";
  timestamp = pos 1;
  payload =
      ("validator_address", Value.text "val")
      ∷ ("block_a_sig", Value.text "01")
      ∷ ("block_b_sig", Value.text "02")
      ∷ ("block_a_header", Value.text "0a")
      ∷ ("block_b_header", Value.text "0b")
      ∷ [];
  signature = [];
  sender_pubkey = [];
  nonce = pos 0;
  chain_id = "qbit";
  max_fee_per_weight = 0;
  max_priority_fee = 0;
  tx_id = "evidence";
}

abbrev accepts_all : List ℕ → List ℕ → List ℕ → Bool
accepts_all key message signature = true

process_evidence_tx_once_example :
    (process_evidence_tx accepts_all evidence 3 staking ≡ staking)
    ⊎ ((process_evidence_tx accepts_all evidence 4
            (process_evidence_tx accepts_all evidence 3 staking)
          ≡ process_evidence_tx accepts_all evidence 3 staking)
        × (is_slashed
              (get_text "validator_address" evidence)
              (process_evidence_tx accepts_all evidence 3 staking)
            ≡ true))
process_evidence_tx_once_example =
    process_evidence_tx_once accepts_all evidence evidence 3 4 staking refl
