-- ===== src/Finality/Examples.antt =====
-- Three validators of equal stake: the first of two blocks is final after a third validator's block.
use qbit_network.Common.{ℕ, String, true, List, [], ◌∷◌, ◌≡◌, refl, arith}
use qbit_network.Common.Int.{pos, negsuc, ◌+ℤ◌}
use qbit_network.Common.Dict.{Dict, Distinct, lookup, total_ℕ, string_eq}
use qbit_network.Staking.{member, add_member}
use qbit_network.Blocks.{Block}
use qbit_network.Finality.{added_stake, walk, update_finality}
use qbit_network.Finality.Supermajority.{IsRaised, update_finality-IsRaised}

abbrev block_by : ℕ → String → Block
block_by index validator = record {
  index = index;
  prev_hash = "";
  transactions = [];
  validator = validator;
  timestamp = pos 0;
  base_fee = 0;
  state_root = "";
  receipts_root = "";
  block_hash = "";
}

abbrev stakes : Dict String ℕ
stakes = ("a", 10) ∷ ("b", 10) ∷ ("c", 10) ∷ []

abbrev chain : List Block
chain = block_by 0 "a" ∷ block_by 1 "b" ∷ block_by 2 "c" ∷ block_by 3 "c" ∷ block_by 4 "a" ∷ []

-- The walk back needs the stake of the third validator, so it goes on to block 1.
raised : update_finality true stakes chain 4 (negsuc 0) ≡ pos 1
unfolding update_finality walk added_stake lookup total_ℕ member add_member ◌+ℤ◌
raised = refl

distinct : Distinct stakes
unfolding lookup
distinct = (refl, (refl, (refl, tt)))

update_finality-IsRaised_example :
    IsRaised stakes chain 4 (negsuc 0) (update_finality true stakes chain 4 (negsuc 0))
update_finality-IsRaised_example =
    update_finality-IsRaised stakes chain 4 (negsuc 0) distinct refl (omega arith)
