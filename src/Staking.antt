-- ===== src/Staking.antt =====
-- qbit_network/core/staking.py, and the STAKE, DELEGATE and UNSTAKE branches of block processing
-- (core/blockchain.py).
pub mod Slashing
pub mod Epochs
pub mod Consistency
pub mod Evidence
pub mod Supply
pub mod Rewards
mod Examples
use Prim.Native.Nat.{Ordering}
use Prim.Native.String.{compare}
use qbit_network.Common.{
  ℕ, zero, suc, ◌+◌, ◌-◌, ◌≤◌, String, Bool, true, false, not, ◌&&◌, ◌||◌, List, [], ◌∷◌, ◌++◌,
  Option, none, some, ltb, leb, ◌==◌, if◌then◌else◌, str_eq,
}
use qbit_network.Common.Int.{ℤ, pos, ltb_ℤ, pos_part}
use qbit_network.Common.Dict.{Dict, lookup, put, pop, get_or, contains, string_eq, nat_eq}
use qbit_network.Config.{unbonding_period}
use qbit_network.Finance.{Unbonding, SlashingEvent, Stakes, Staking}

-- ---- Queries ----

unfoldable pub get_validator_stake : String → Staking → ℕ
get_validator_stake validator_addr s = get_or validator_addr 0 s.total_stake

-- `self._stakes.get(validator, {})`
abbrev pub stakes_of : String → Staking → Dict String ℕ
stakes_of validator s = get_or validator [] s.stakes

unfoldable pub get_staker_info : String → String → Staking → ℕ
get_staker_info staker validator s = get_or staker 0 (stakes_of validator s)

-- `result.sort(key=lambda x: x[0])`: a stable sort of pairs by address.
unfoldable pub insert_by_address : String × ℕ → List (String × ℕ) → List (String × ℕ)
insert_by_address e [] = e ∷ []
insert_by_address e (f ∷ l) =
    let rest = insert_by_address e l in
    elim (compare e.0 f.0) [ Ordering.gt ↦ f ∷ rest | _ ↦ e ∷ f ∷ l ]

unfoldable pub sort_by_address : List (String × ℕ) → List (String × ℕ)
unfolding insert_by_address
sort_by_address [] = []
sort_by_address (e ∷ l) = insert_by_address e (sort_by_address l)

-- `[(addr, total) for addr, total in self._total_stake.items() if total > 0]`
unfoldable pub positive_stakes : Dict String ℕ → List (String × ℕ)
positive_stakes [] = []
positive_stakes ((addr, total) ∷ d) =
    let rest = positive_stakes d in if ltb 0 total then (addr, total) ∷ rest else rest

-- `_get_live_validators`
unfoldable pub get_live_validators : Staking → List (String × ℕ)
unfolding positive_stakes sort_by_address
get_live_validators s = sort_by_address (positive_stakes s.total_stake)

unfoldable pub get_active_validators : Staking → List (String × ℕ)
unfolding get_live_validators
get_active_validators s = elim s.epoch_validators [ [] ↦ get_live_validators s | e ∷ l ↦ e ∷ l ]

-- `none` is the default argument.
unfoldable pub get_epoch_validators : Option ℕ → Staking → List (String × ℕ)
get_epoch_validators none s = get_or s.current_epoch [] s.epochs
get_epoch_validators (some epoch) s = get_or epoch [] s.epochs

-- `x in self._slashed_validators`, for the sets that are kept as lists.
unfoldable pub member : String → List String → Bool
member x [] = false
member x (y ∷ l) = str_eq y x || member x l

-- `set.add`
unfoldable pub add_member : String → List String → List String
unfolding member
add_member x l = if member x l then l else x ∷ l

-- `set.discard`
unfoldable pub discard : String → List String → List String
discard x [] = []
discard x (y ∷ l) = let rest = discard x l in if str_eq y x then rest else y ∷ rest

unfoldable pub is_slashed : String → Staking → Bool
unfolding member
is_slashed address s = member address s.slashed_validators

-- `[e for e in self._slashing_events if e["validator"] == validator]`
unfoldable pub events_of : String → List SlashingEvent → List SlashingEvent
events_of validator [] = []
events_of validator (e ∷ l) =
    let rest = events_of validator l in if str_eq e.validator validator then e ∷ rest else rest

unfoldable pub get_slashing_events : String → Staking → List SlashingEvent
unfolding events_of
get_slashing_events validator s =
    if str_eq validator "" then s.slashing_events else events_of validator s.slashing_events

-- ---- Staking transactions ----

-- STAKE and DELEGATE.
unfoldable pub add_stake : String → String → ℤ → Staking → Staking
unfolding get_staker_info get_validator_stake
add_stake staker vaddr amount s =
    if not (str_eq vaddr "") && ltb_ℤ (pos 0) amount
    then record s {
      stakes =
          put vaddr
            (put staker (get_staker_info staker vaddr s + pos_part amount) (stakes_of vaddr s))
            s.stakes;
      total_stake = put vaddr (get_validator_stake vaddr s + pos_part amount) s.total_stake;
    }
    else s

-- What UNSTAKE leaves of the stakes to one validator, which had the stakers `held`.
abbrev pub reduce_stake : String → String → ℕ → Option (Dict String ℕ) → Stakes → Stakes
reduce_stake staker vaddr new_amount none stakes = stakes
reduce_stake staker vaddr new_amount (some held) stakes =
    put vaddr (if new_amount == 0 then pop staker held else put staker new_amount held) stakes

-- UNSTAKE in block `idx`. The differences are those of `max(0, _)`.
unfoldable pub remove_stake : String → String → ℤ → ℕ → Staking → Staking
unfolding get_staker_info get_validator_stake
remove_stake staker vaddr amount idx s =
    if not (str_eq vaddr "") && ltb_ℤ (pos 0) amount
    then record s {
      stakes =
          reduce_stake staker vaddr (get_staker_info staker vaddr s - pos_part amount)
            (lookup vaddr s.stakes) s.stakes;
      total_stake = put vaddr (get_validator_stake vaddr s - pos_part amount) s.total_stake;
      unbonding =
          s.unbonding
          ++ record {
            staker = staker;
            validator = vaddr;
            amount = pos_part amount;
            release_block = idx + unbonding_period;
          }
            ∷ [];
    }
    else s

-- The rollback of STAKE and DELEGATE (core/rollback.py).
unfoldable pub rollback_stake : String → String → ℤ → Staking → Staking
unfolding get_validator_stake
rollback_stake staker vaddr amount s =
    if not (str_eq vaddr "") && ltb_ℤ (pos 0) amount
    then (let remaining = get_validator_stake vaddr s - pos_part amount in
        record s {
          stakes =
              if contains staker (stakes_of vaddr s)
              then reduce_stake staker vaddr (get_or staker 0 (stakes_of vaddr s) - pos_part amount)
                  (lookup vaddr s.stakes) s.stakes
              else s.stakes;
          total_stake =
              if remaining == 0 then pop vaddr s.total_stake else put vaddr remaining s.total_stake;
        })
    else s

-- `[e for e in self._unbonding if not (...)]` in the rollback of UNSTAKE.
unfoldable pub without_entry : String → String → ℕ → ℕ → List Unbonding → List Unbonding
without_entry staker vaddr amount release_block [] = []
without_entry staker vaddr amount release_block (e ∷ l) =
    let rest = without_entry staker vaddr amount release_block l in
    if str_eq e.staker staker
      && str_eq e.validator vaddr
      && e.amount == amount
      && e.release_block == release_block
    then rest
    else e ∷ rest

-- The rollback of UNSTAKE of block `idx` (core/rollback.py).
unfoldable pub rollback_unstake : String → String → ℤ → ℕ → Staking → Staking
unfolding get_staker_info get_validator_stake without_entry
rollback_unstake staker vaddr amount idx s =
    if not (str_eq vaddr "") && ltb_ℤ (pos 0) amount
    then record s {
      stakes =
          put vaddr
            (put staker (get_staker_info staker vaddr s + pos_part amount) (stakes_of vaddr s))
            s.stakes;
      total_stake = put vaddr (get_validator_stake vaddr s + pos_part amount) s.total_stake;
      unbonding = without_entry staker vaddr (pos_part amount) (idx + unbonding_period) s.unbonding;
    }
    else s
