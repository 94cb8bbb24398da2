-- ===== src/Finality.antt =====
-- Finality in qbit_network/core/receipt_ops.py: the height up to which blocks are final. It is -1
-- before any block is. The chain is the list of its blocks (the store is None).
pub mod Stake
pub mod Supermajority
mod Examples
use qbit_network.Common.{
  ℕ, zero, suc, ◌+◌, ◌-◌, ◌*◌, String, Bool, true, false, List, [], ◌∷◌, Option, none, some, ltb,
  ◌==◌, if◌then◌else◌, get_elem?,
}
use qbit_network.Common.Int.{ℤ, pos, negsuc, ◌+ℤ◌, max_ℤ, ltb_ℤ, leb_ℤ, pos_part}
use qbit_network.Common.Dict.{Dict, get_or, total_ℕ, string_eq}
use qbit_network.Staking.{member, add_member}
use qbit_network.Blocks.{Block}

-- The stake that a validator adds to the sum, with those seen before.
unfoldable pub added_stake : String → List String → Dict String ℕ → ℕ
added_stake v seen stakes = if member v seen then 0 else get_or v 0 stakes

-- The `for` loop of `_update_finality` over the heights `low + rounds - 1` down to `low`: the
-- height at which it breaks with more than 2/3 of `total`.
unfoldable pub walk : Dict String ℕ → List Block → ℕ → ℕ → ℕ → List String → ℕ → Option ℕ
walk stakes chain total low zero seen cumulative = none
walk stakes chain total low (suc rounds) seen cumulative = elim (get_elem? chain (low + rounds)) [
  | none ↦ none
  | some block ↦
      let sum = cumulative + added_stake block.validator seen stakes in
      let rest = walk stakes chain total low rounds (add_member block.validator seen) sum in
      if ltb (total * 2) (sum * 3) then some (low + rounds) else rest
]

-- `if new_finalized > self._finalized_height`
abbrev pub raise_to : ℤ → Option ℕ → ℤ
raise_to finalized none = finalized
raise_to finalized (some height) = if ltb_ℤ finalized (pos height) then pos height else finalized

-- The lowest height that is not final.
abbrev pub first_open : ℤ → ℕ
first_open finalized = pos_part (max_ℤ finalized (negsuc 0) +ℤ pos 1)

-- `_update_finality`
unfoldable pub update_finality : Bool → Dict String ℕ → List Block → ℕ → ℤ → ℤ
update_finality active stakes chain new_block_index finalized =
    let total = total_ℕ stakes in
    let low = first_open finalized in
    let found = walk stakes chain total low (suc new_block_index - low) [] 0 in
    if active then (if total == 0 then finalized else raise_to finalized found) else finalized

-- Of `_rollback_block`, for the block at `idx`.
unfoldable pub rollback_finality : ℕ → ℤ → ℤ
rollback_finality idx finalized =
    if leb_ℤ (pos idx) finalized then pos idx +ℤ negsuc 0 else finalized
