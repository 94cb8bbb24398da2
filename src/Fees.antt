-- ===== src/Fees.antt =====
-- qbit_network/core/fees.py. Weights and fees are non-negative integers, so the native numbers:
-- every subtraction stands under a test, or under a `max(0, _)`, that makes it exact.
pub mod Bounds
mod Examples
use qbit_network.Common.{
  ℕ, ◌+◌, ◌-◌, ◌*◌, ◌/◌, min, max, Bool, List, String, str_eq, ltb, ◌==◌, if◌then◌else◌, sum_by,
}
use qbit_network.Config.{tx_weights, base_fee_change_denom, min_base_fee, max_base_fee, TxType}
use qbit_network.Transaction.{Transaction}

unfoldable pub tx_weight : TxType → ℕ
tx_weight t = tx_weights t

-- The weight of the transactions that the validator did not send itself.
unfoldable pub effective_block_weight : List Transaction → String → ℕ
effective_block_weight transactions validator_address =
    sum_by (λ tx. if str_eq tx.sender validator_address then 0 else tx_weights tx.tx_type)
      transactions

unfoldable pub block_total_weight : List Transaction → ℕ
block_total_weight transactions = sum_by (λ tx. tx_weights tx.tx_type) transactions

-- Every caller in the library leaves `target_weight` at TARGET_BLOCK_WEIGHT. (At 0 the source
-- raises ZeroDivisionError, and this division gives 0: the theorems ask for a positive target.)
unfoldable pub compute_base_fee : ℕ → ℕ → ℕ → ℕ
compute_base_fee parent_base_fee parent_effective_weight target_weight =
    let new_fee =
      if parent_effective_weight == target_weight
      then parent_base_fee
      else if ltb target_weight parent_effective_weight
      then (let delta = parent_effective_weight - target_weight in
          parent_base_fee + max 1 (parent_base_fee * delta / target_weight / base_fee_change_denom))
      else (let delta = target_weight - parent_effective_weight in
          parent_base_fee - parent_base_fee * delta / target_weight / base_fee_change_denom) in
    max min_base_fee (min new_fee max_base_fee)

unfoldable pub compute_tx_fee : ℕ → ℕ → ℕ → ℕ → ℕ
compute_tx_fee base_fee max_fee_per_weight max_priority_fee weight =
    if weight == 0
    then 0
    else (let effective_priority = max 0 (min max_priority_fee (max_fee_per_weight - base_fee)) in
        (base_fee + effective_priority) * weight)
