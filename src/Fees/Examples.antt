-- ===== src/Fees/Examples.antt =====
-- The fee theorems at concrete blocks and transactions.
use qbit_network.Common.{◌≡◌, ◌≤◌, ◌+◌, ◌/◌, max, refl, arith}
use qbit_network.Config.{min_base_fee, max_base_fee}
use qbit_network.Fees.{compute_base_fee}
use qbit_network.Fees.Bounds.{compute_base_fee_step}

full_block : compute_base_fee 100 20_000_000 10_000_000 ≡ 112
unfolding compute_base_fee
full_block = refl

compute_base_fee_step_example :
    (min_base_fee ≤ compute_base_fee 100 20_000_000 10_000_000)
    × (compute_base_fee 100 20_000_000 10_000_000 ≤ max_base_fee)
    × (compute_base_fee 100 20_000_000 10_000_000 ≤ 100 + max 1 (100 / 8))
    × (100 ≤ compute_base_fee 100 20_000_000 10_000_000 + 100 / 8)
compute_base_fee_step_example =
    compute_base_fee_step 100 20_000_000 10_000_000 (omega arith) (omega arith) (omega arith)
      (omega arith)
