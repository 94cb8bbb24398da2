-- ===== src/Ledger/Examples.antt =====
-- The ledger theorems at a concrete ledger.
use qbit_network.Common.{true, false, [], ◌∷◌, ◌≡◌, ◌⊎◌, refl, arith}
use qbit_network.Common.Int.{pos, ◌+ℤ◌, ◌-ℤ◌, ◌≤ℤ◌, ◌<ℤ◌, leb_ℤ, eqb_ℤ}
use qbit_network.Common.Dict.{lookup, string_eq, Distinct}
use qbit_network.Common.Exec.{Outcome}
use qbit_network.Config.{max_supply}
use qbit_network.Ledger.{Ledger, get_balance, debit, calc_block_reward}
use qbit_network.Ledger.Moves.{MovedBy, debit-MovedBy}
use qbit_network.Ledger.Reward.{calc_block_reward_again}

abbrev two_accounts : Ledger
two_accounts = record {
  balances = ("alice", pos 70) ∷ ("bob", pos 30) ∷ [];
  total_minted = pos 100;
  total_burned = pos 0;
  financial_active = true;
}

distinct : Distinct two_accounts.balances
unfolding lookup
distinct = (refl, (refl, tt))

debit-MovedBy_example :
    Outcome
      (λ _ l'.
        (pos 0 ≤ℤ pos 70)
        × ((pos 70 ≡ pos 0) ⊎ (pos 70 ≤ℤ get_balance "alice" two_accounts))
        × MovedBy "alice" (pos 0 -ℤ pos 70) "alice" two_accounts l')
      (λ e l'.
        ((pos 70 <ℤ pos 0) ⊎ ((pos 0 <ℤ pos 70) × (get_balance "alice" two_accounts <ℤ pos 70)))
        × (l' ≡ two_accounts))
      (debit "alice" (pos 70) two_accounts)
debit-MovedBy_example = debit-MovedBy "alice" "alice" (pos 70) two_accounts distinct

-- One unit below the cap, the reward found again is 0 and not 1.
abbrev almost_all_minted : Ledger
almost_all_minted = record two_accounts { total_minted = pos 20_999_999_999_999_999 }

found_again :
    calc_block_reward 7 (record almost_all_minted { total_minted = pos max_supply }) ≡ pos 0
unfolding calc_block_reward ◌-ℤ◌
found_again = refl

calc_block_reward_again_example :
    eqb_ℤ
      (calc_block_reward 7 (record almost_all_minted {
        total_minted = almost_all_minted.total_minted +ℤ calc_block_reward 7 almost_all_minted;
      }))
      (calc_block_reward 7 almost_all_minted)
    ≡ leb_ℤ
        (almost_all_minted.total_minted
          +ℤ calc_block_reward 7 almost_all_minted
          +ℤ calc_block_reward 7 almost_all_minted)
        (pos max_supply)
calc_block_reward_again_example = calc_block_reward_again 7 almost_all_minted (omega arith)

abbrev inactive : Ledger
inactive = record two_accounts { financial_active = false }
