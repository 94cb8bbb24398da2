-- ===== src/Finance.antt =====
-- The state that the ledger, staking and rollback mixins of qbit_network/core share: the fields of
-- Blockchain.__init__ (core/blockchain.py) that hold money, stakes and epochs. Stakes, epoch
-- rewards and commissions are never negative in the source (each write is guarded or clamped), so
-- they are native numbers.
use qbit_network.Common.{ℕ, String, List, sum_by}
use qbit_network.Common.Int.{ℤ, pos, ◌+ℤ◌, ◌-ℤ◌}
use qbit_network.Common.Dict.{Dict, total, total_ℕ, string_eq}
use qbit_network.Config.{max_supply}
use qbit_network.Ledger.{Ledger}

-- An entry of `_unbonding`.
pub record Unbonding : Type 0 where
  pub staker : String
  pub validator : String
  pub amount : ℕ
  pub release_block : ℕ

pub record SlashingEvent : Type 0 where
  pub validator : String
  pub evidence_tx_id : String
  pub amount_slashed : ℕ
  pub block_index : ℕ

-- An entry of `_last_epoch_distributions`.
pub record Distribution : Type 0 where
  pub credits : List (String × ℕ)
  pub debits : List (String × ℕ)

abbrev pub Stakes : Type 0
Stakes = Dict String (Dict String ℕ)

pub record Staking : Type 0 where
  pub stakes : Stakes
  pub total_stake : Dict String ℕ
  pub unbonding : List Unbonding
  pub current_epoch : ℕ
  pub epoch_validators : List (String × ℕ)
  pub epochs : Dict ℕ (List (String × ℕ))
  pub slashed_validators : List String
  pub slashing_events : List SlashingEvent
  pub processed_evidence : List String
  pub epoch_rewards : Dict String ℕ
  pub validator_commission : Dict String ℕ
  pub last_epoch_distributions : Dict ℕ Distribution
  -- `_validator_registry`, and the `validators` of the consensus object: address -> public key
  pub validator_registry : Dict String (List ℕ)
  pub consensus_validators : Dict String (List ℕ)

pub record Finance : Type 0 where
  pub ledger : Ledger
  pub staking : Staking

abbrev pub set_ledger : Ledger → Finance → Finance
set_ledger l f = record f { ledger = l }

abbrev pub set_staking : Staking → Finance → Finance
set_staking s f = record f { staking = s }

unfoldable pub unbonding_total : List Unbonding → ℕ
unbonding_total entries = sum_by (λ e. e.amount) entries

-- The sum that `_rollback_to_inner` compares before and after: what is held, staked, burned or
-- unbonding, less what was minted.
unfoldable pub supply_invariant : Finance → ℤ
supply_invariant f =
    total f.ledger.balances
    +ℤ pos (total_ℕ f.staking.total_stake)
    +ℤ f.ledger.total_burned
    +ℤ pos (unbonding_total f.staking.unbonding)
    -ℤ f.ledger.total_minted

pub record TotalSupply : Type 0 where
  pub total_minted : ℤ
  pub total_burned : ℤ
  pub circulating : ℤ
  pub staked : ℕ
  pub max_supply : ℕ

-- `get_total_supply`
unfoldable pub get_total_supply : Finance → TotalSupply
get_total_supply f =
    let total_staked = total_ℕ f.staking.total_stake in
    record {
      total_minted = f.ledger.total_minted;
      total_burned = f.ledger.total_burned;
      circulating = f.ledger.total_minted -ℤ f.ledger.total_burned -ℤ pos total_staked;
      staked = total_staked;
      max_supply = max_supply;
    }
