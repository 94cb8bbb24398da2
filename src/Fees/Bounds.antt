-- ===== src/Fees/Bounds.antt =====
-- What the fee rules of core/fees.py guarantee: ranges, the size of one adjustment, and its
-- direction.
use qbit_network.Common.{ℕ, ◌+◌, ◌-◌, ◌*◌, ◌/◌, ◌≤◌, ◌<◌, ◌≡◌, List, [], ◌∷◌, String, max, arith}
use qbit_network.Config.{min_base_fee, max_base_fee}
use qbit_network.Transaction.{Transaction}
use qbit_network.Fees.{effective_block_weight, block_total_weight, compute_base_fee, compute_tx_fee}

scaled_le : (b d t : ℕ) → 0 < t → d ≤ t → b * d / t ≤ b
scaled_le b d t ht h = grind arith

scaled_mono : (b d e t : ℕ) → 0 < t → d ≤ e → b * d / t ≤ b * e / t
scaled_mono b d e t ht h = grind arith

-- The base fee of the next block lies between MIN_BASE_FEE and MAX_BASE_FEE, and from a parent fee
-- in that range it moves by at most an eighth of the parent's fee (by 1, if that is more), as long
-- as the parent's effective weight is at most twice the target.
pub compute_base_fee_step :
    (b w t : ℕ)
    → 0 < t
    → w ≤ t + t
    → min_base_fee ≤ b
    → b ≤ max_base_fee
    → (min_base_fee ≤ compute_base_fee b w t)
      × (compute_base_fee b w t ≤ max_base_fee)
      × (compute_base_fee b w t ≤ b + max 1 (b / 8))
      × (b ≤ compute_base_fee b w t + b / 8)
unfolding compute_base_fee
compute_base_fee_step b w t ht hw lo hi =
    ground (arith, scaled_le b (w - t) t ht (omega arith), scaled_le b (t - w) t ht (omega arith))

-- A heavier parent never gives a lower base fee, and a parent exactly at the target leaves it.
pub compute_base_fee_mono :
    (b w w' t : ℕ)
    → 0 < t
    → min_base_fee ≤ b
    → b ≤ max_base_fee
    → w ≤ w'
    → (compute_base_fee b w t ≤ compute_base_fee b w' t) × (compute_base_fee b t t ≡ b)
unfolding compute_base_fee
compute_base_fee_mono b w w' t ht lo hi le = (
  ground (
    arith,
    scaled_mono b (w - t) (w' - t) t ht (omega arith),
    scaled_mono b (t - w') (t - w) t ht (omega arith),
  ),
  ground arith,
)

-- A parent above the target raises the base fee, unless it stands at MAX_BASE_FEE already.
pub compute_base_fee_rises :
    (b w t : ℕ) → min_base_fee ≤ b → b < max_base_fee → t < w → b < compute_base_fee b w t
unfolding compute_base_fee
compute_base_fee_rises b w t lo hi above = ground arith

-- If the sender's maximum covers the base fee, the fee is at least the base fee and at most the
-- sender's maximum for the weight, and the part above the base fee is within the offered priority.
pub compute_tx_fee_bounds :
    (base cap priority w : ℕ)
    → base ≤ cap
    → (base * w ≤ compute_tx_fee base cap priority w)
      × (compute_tx_fee base cap priority w ≤ cap * w)
      × (compute_tx_fee base cap priority w ≤ (base + priority) * w)
unfolding compute_tx_fee
compute_tx_fee_bounds base cap priority w h = (grind arith, grind arith, grind arith)

-- The effective weight never exceeds the total weight.
pub effective-le-total :
    (txs : List Transaction) (v : String) → effective_block_weight txs v ≤ block_total_weight txs
unfolding effective_block_weight block_total_weight
effective-le-total [] v = ground arith
effective-le-total (tx ∷ txs) v = ground (arith, effective-le-total txs v)
