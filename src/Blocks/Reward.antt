-- ===== src/Blocks/Reward.antt =====
-- The block reward of core/blockchain.py against the supply invariant and the supply cap.
use qbit_network.Common.{ℕ, ◌&&◌, ◌≡◌, refl, inl, inr, Bool-cases, ltb}
use qbit_network.Common.Int.{pos, ◌≤ℤ◌, int_laws, ltb_ℤ}
use qbit_network.Common.Dict.{Distinct, string_eq}
use qbit_network.Common.Exec.{◌>>=◌, Outcome}
use qbit_network.Config.{max_supply}
use qbit_network.Ledger.{calc_block_reward}
use qbit_network.Ledger.Moves.{credit_returns}
use qbit_network.Ledger.Reward.{calc_block_reward_bounds}
use qbit_network.Finance.{Finance, supply_invariant}
use qbit_network.Blocks.{Block, pay_reward}

-- While no address is listed twice and no more than the cap is minted, the block reward never raises, keeps the supply invariant,
-- and leaves no more than the cap minted.
pub pay_reward_conserves :
    (block : Block) (idx : ℕ) (f : Finance)
    → Distinct f.ledger.balances
    → f.ledger.total_minted ≤ℤ pos max_supply
    → Outcome
        (λ _ f'.
          (supply_invariant f' ≡ supply_invariant f) × (f'.ledger.total_minted ≤ℤ pos max_supply))
        (λ e f'. ⊥)
        (pay_reward block idx f)
unfolding pay_reward supply_invariant
pay_reward_conserves block idx f u capped =
    let reward = calc_block_reward idx f.ledger in
    let bounds = calc_block_reward_bounds idx f.ledger capped in
    let paid = credit_returns block.validator block.validator reward f.ledger u bounds.0 in
    elim (Bool-cases (ltb 0 idx && f.ledger.financial_active && ltb_ℤ (pos 0) reward)) [
      | inl pays ↦ rw pays (
          rw (paid.0, Outcome, ◌>>=◌)
            (rw (paid.1.0, paid.1.2, paid.1.3) (omega int_laws), rw paid.1.2 bounds.2))
      | inr none ↦ rw none (refl, capped)
    ]
