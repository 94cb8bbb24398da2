-- ===== src/Consensus.antt =====
-- qbit_network/core/consensus.py: here the choice of the validator of a block, in Validate the check
-- of a block. The seed of the
-- stake-weighted choice, the first 8 bytes of a SHA3-256 digest of parent hash and index, is a
-- parameter. Timestamps are whole seconds, as Block.from_dict demands, so that the quotient that is
-- cut to an integer is the division of natural numbers; the time of the block is always passed.
pub mod Selection
pub mod Turn
pub mod Validate
pub mod Accepted
pub mod Nonces
pub mod Transactions
pub mod ValidBlock
pub mod Complete
mod Examples
mod ValidateExamples
use qbit_network.Common.{
  ℕ, zero, suc, ◌+◌, ◌*◌, ◌/◌, ◌%◌, String, Bool, List, [], ◌∷◌, Option, none, some, ltb,
  if◌then◌else◌, str_eq, map, sum_by, get_elem?, length,
}
use qbit_network.Common.Int.{ℤ, pos_part, ◌-ℤ◌}
use qbit_network.Common.Dict.{Dict, put, pop, contains, lookup, string_eq}
use qbit_network.Common.Sorted.{sorted}
use qbit_network.Config.{block_interval}

abbrev pub Validators : Type 0
Validators = Dict String (List ℕ)

unfoldable pub add_validator : String → List ℕ → Validators → Validators
add_validator address signing_pk validators = put address signing_pk validators

unfoldable pub remove_validator : String → Validators → Validators
remove_validator address validators = pop address validators

unfoldable pub is_validator : String → Validators → Bool
is_validator address validators = contains address validators

unfoldable pub get_validator_pk : String → Validators → Option (List ℕ)
get_validator_pk address validators = lookup address validators

-- `addresses[(base + skips) % n]`, with one skip for each 3 intervals since the parent.
unfoldable pub select_with_skip : List String → ℕ → ℕ → ℤ → ℤ → Option String
select_with_skip addresses base n parent_timestamp block_timestamp =
    let elapsed = block_timestamp -ℤ parent_timestamp in
    let skips = pos_part elapsed / (block_interval * 3) in get_elem? addresses ((base + skips) % n)

-- `_select_poa`; a missing timestamp of the parent is `none`.
unfoldable pub select_poa : ℕ → Option ℤ → ℤ → Validators → Option String
select_poa block_index parent_timestamp block_timestamp [] = none
select_poa block_index parent_timestamp block_timestamp (v ∷ validators) =
    let addresses = sorted (map (λ e. e.0) (v ∷ validators)) in
    let n = length addresses in
    let base = block_index % n in
    elim parent_timestamp [
      | none ↦ get_elem? addresses base
      | some parent ↦ select_with_skip addresses base n parent block_timestamp
    ]

-- The loop of `_select_dpos`.
unfoldable pub find_point : ℕ → ℕ → List (String × ℕ) → Option String
find_point point cumulative [] = none
find_point point cumulative ((addr, stake) ∷ active) =
    let rest = find_point point (cumulative + stake) active in
    if ltb point (cumulative + stake) then some addr else rest

-- `active[-1][0]`
abbrev pub last_address : List (String × ℕ) → Option String
last_address [] = none
last_address (e ∷ []) = some e.0
last_address (e ∷ f ∷ l) = last_address (f ∷ l)

abbrev pub total_of : List (String × ℕ) → ℕ
total_of active = sum_by (λ e. e.1) active

module _ (seed_int : String → ℕ → ℕ) where
  -- `_select_dpos`. (Validators have a positive stake; at a total of 0 the source divides by 0.)
  unfoldable pub select_dpos : ℕ → String → List (String × ℕ) → Option String
  select_dpos block_index parent_hash active =
      let point = seed_int parent_hash block_index % total_of active in
      elim (find_point point 0 active) [ none ↦ last_address active | some addr ↦ some addr ]

  -- `select_validator`, with the list of active validators that the chain injects.
  unfoldable pub select_validator :
      ℕ → Option ℤ → String → ℤ → List (String × ℕ) → Validators → Option String
  select_validator block_index parent_timestamp parent_hash block_timestamp active validators =
      let poa = select_poa block_index parent_timestamp block_timestamp validators in
      if str_eq parent_hash ""
      then poa
      else elim active [ [] ↦ poa | e ∷ l ↦ select_dpos block_index parent_hash (e ∷ l) ]
