-- ===== src/Consensus/Examples.antt =====
-- The choice of the validator at concrete sets of validators.
use qbit_network.Common.{ℕ, ◌+◌, ◌%◌, String, List, [], ◌∷◌, some, ◌≡◌, refl, arith}
use qbit_network.Common.Int.{pos, ◌-ℤ◌}
use qbit_network.Consensus.{Validators, select_dpos, select_poa, select_with_skip, find_point}
use qbit_network.Consensus.Selection.{HasPoint, select_dpos-HasPoint}
use qbit_network.Consensus.Turn.{IsTurn, select_poa-IsTurn}
use qbit_network.Common.Sorted.{sorted, insert_text}
use qbit_network.Common.Sorted.Ascending.{Holds}

abbrev active : List (String × ℕ)
active = ("a", 10) ∷ ("b", 30) ∷ []

abbrev seed : String → ℕ → ℕ
seed parent_hash block_index = 50 + block_index

chosen : select_dpos seed 5 "parent" active ≡ some "b"
unfolding select_dpos find_point
chosen = refl

select_dpos-HasPoint_example :
    (addr : String) × (select_dpos seed 5 "parent" active ≡ some addr)
    × HasPoint (55 % 40) 0 active addr
select_dpos-HasPoint_example = select_dpos-HasPoint seed 5 "parent" active (omega arith)

abbrev validators : Validators
validators = ("a", 2 ∷ []) ∷ []

-- Two slots are skipped, so that the first of the two is on turn again.
select_poa-IsTurn_example :
    (addr : String) × (select_poa 6 (some (pos 100)) (pos 131) (("b", 1 ∷ []) ∷ validators)
      ≡ some addr)
    × Holds addr ("b" ∷ "a" ∷ [])
    × IsTurn 8 ("b" ∷ "a" ∷ []) addr
unfolding ◌-ℤ◌
select_poa-IsTurn_example = select_poa-IsTurn 6 (some (pos 100)) (pos 131) ("b", 1 ∷ []) validators

on_turn : select_poa 6 (some (pos 100)) (pos 131) (("b", 1 ∷ []) ∷ validators) ≡ some "a"
unfolding select_poa select_with_skip sorted insert_text ◌-ℤ◌
on_turn = refl
