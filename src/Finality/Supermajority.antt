-- ===== src/Finality/Supermajority.antt =====
-- What `_update_finality` finds: the highest block from which on the validators hold more than 2/3.
use native.Mathlib.Decide.{dec_lt}
use qbit_network.Common.{
  ℕ, zero, suc, ◌+◌, ◌-◌, ◌*◌, ◌≤◌, ◌<◌, String, true, List, [], ◌∷◌, Option, none, some, ltb, ◌==◌,
  if◌then◌else◌, get_elem?, drop, length, map, ◌≡◌, refl, sym, ◌∙◌, arith, ◌⊎◌, inl, inr,
  Bool-cases, ap,
}
use mathlib.Core.Path.{subst}
use qbit_network.Common.Int.{ℤ, pos, negsuc, ◌+ℤ◌, ltb_ℤ, ◌<ℤ◌, ◌≤ℤ◌}
use qbit_network.Common.Dict.{Dict, Distinct, total_ℕ, string_eq}
use qbit_network.Staking.{member, add_member}
use qbit_network.Blocks.{Block}
use qbit_network.Finality.{added_stake, walk, raise_to, first_open, update_finality}
use qbit_network.Finality.Stake.{
  held, SameMembers, held-SameMembers, held-added, held-le-total, held-nil, add_member-SameMembers,
}

-- The validators of the blocks from a height on.
unfoldable pub validators_from : ℕ → List Block → List String
validators_from i chain = map (λ b. b.validator) (drop i chain)

-- The validators of the blocks from a height on hold more than 2/3 of all stake.
abbrev pub IsBacked : Dict String ℕ → List Block → ℕ → Type 0
IsBacked stakes chain i = total_ℕ stakes * 2 < held stakes (validators_from i chain) * 3

drop-get_elem? :
    {A : Type 0} (l : List A) (i : ℕ) (a : A)
    → get_elem? l i ≡ some a
    → drop i l ≡ a ∷ drop (suc i) l
drop-get_elem? [] i a h = cc
drop-get_elem? (x ∷ l) zero a h = cc
drop-get_elem? (x ∷ l) (suc i) a h = drop-get_elem? l i a h

get_elem?-of_lt :
    {A : Type 0} (l : List A) (i : ℕ) → i < length l → (a : A) × (get_elem? l i ≡ some a)
get_elem?-of_lt [] i h = absurd (omega arith)
get_elem?-of_lt (x ∷ l) zero h = (x, refl)
get_elem?-of_lt (x ∷ l) (suc i) h = get_elem?-of_lt l i (omega arith)

drop_all : {A : Type 0} (l : List A) → drop (length l) l ≡ []
drop_all [] = refl
drop_all (x ∷ l) = drop_all l

-- The highest backed height from `low` on and below `top`, or that there is none.
abbrev pub IsHighest : Dict String ℕ → List Block → ℕ → ℕ → Option ℕ → Type 0
IsHighest stakes chain low top none = (i : ℕ) → low ≤ i → i < top → ¬ (IsBacked stakes chain i)
IsHighest stakes chain low top (some i) =
    (low ≤ i)
    × (i < top)
    × IsBacked stakes chain i
    × ((j : ℕ) → i < j → j < top → ¬ (IsBacked stakes chain j))

module _ (stakes : Dict String ℕ) (chain : List Block) where
  not-IsBacked :
      (top j : ℕ)
      → ¬ (IsBacked stakes chain top)
      → j < suc top
      → (j < top → ¬ (IsBacked stakes chain j))
      → ¬ (IsBacked stakes chain j)
  not-IsBacked top j h lt below = elim (dec_lt j top) [
    | yes p ↦ below p
    | no p ↦ (let e : top ≡ j = omega arith in subst (λ x. ¬ (IsBacked stakes chain x)) e h)
  ]

  IsHighest-suc :
      (low top : ℕ) (o : Option ℕ)
      → ¬ (IsBacked stakes chain top)
      → IsHighest stakes chain low top o
      → IsHighest stakes chain low (suc top) o
  IsHighest-suc low top none h all = λ i le lt. not-IsBacked top i h lt (all i le)
  IsHighest-suc low top (some i) h (le, lt, backed, above) =
      (le, omega arith, backed, λ j p q. not-IsBacked top j h q (above j p))

  module _ (distinct : Distinct stakes) where
    -- The sum after a block is the stake of the validators from this block on.
    sum_held :
        (i : ℕ) (block : Block) (seen : List String)
        → get_elem? chain i ≡ some block
        → SameMembers seen (validators_from (suc i) chain)
        → (held stakes seen + added_stake block.validator seen stakes
            ≡ held stakes (validators_from i chain))
          × SameMembers (add_member block.validator seen) (validators_from i chain)
    unfolding validators_from member
    sum_held i block seen here same =
        let members : SameMembers (block.validator ∷ seen) (validators_from i chain) =
          λ x. rw (drop-get_elem? chain i block here, same x) refl in
        (
          sym (held-added stakes block.validator seen distinct)
              ∙ held-SameMembers stakes (block.validator ∷ seen) (validators_from i chain) members,
          λ x. add_member-SameMembers block.validator seen x ∙ members x,
        )

    -- One round, from the block at `low + rounds`.
    round_IsHighest :
        (low top sum : ℕ) (rest : Option ℕ)
        → low ≤ top
        → sum ≡ held stakes (validators_from top chain)
        → IsHighest stakes chain low top rest
        → IsHighest stakes chain low
            (suc top)
            (if ltb (total_ℕ stakes * 2) (sum * 3) then some top else rest)
    round_IsHighest low top sum rest le e h =
        elim (Bool-cases (ltb (total_ℕ stakes * 2) (sum * 3))) [
          | inl more ↦ rw more (le, omega arith, ground (arith, e), λ j p q. absurd (omega arith))
          | inr less ↦ rw less (IsHighest-suc low top rest (λ p. ground (arith, e, p)) h)
        ]

    walk-IsHighest :
        (low rounds : ℕ) (seen : List String) (cumulative : ℕ)
        → low + rounds ≤ length chain
        → SameMembers seen (validators_from (low + rounds) chain)
        → cumulative ≡ held stakes seen
        → IsHighest stakes chain low
            (low + rounds)
            (walk stakes chain (total_ℕ stakes) low rounds seen cumulative)
    unfolding walk
    walk-IsHighest low zero seen cumulative inside same sum = λ i le lt. absurd (omega arith)
    walk-IsHighest low (suc rounds) seen cumulative inside same sum =
        let next : low + suc rounds ≡ suc (low + rounds) = omega arith in
        let (block, here) = get_elem?-of_lt chain (low + rounds) (omega arith) in
        let (total, same') = sum_held (low + rounds) block seen here (rw next at same) in
        let added = held-added stakes block.validator seen distinct in
        let seen' = add_member block.validator seen in
        let sum' = ap (λ c. c + added_stake block.validator seen stakes) sum in
        let kept = sym (
          held-SameMembers stakes seen' (block.validator ∷ seen)
            (add_member-SameMembers block.validator seen)
          ∙ added) in
        rw (next, here, walk)
          (round_IsHighest low (low + rounds) _ _ (omega arith) (sum' ∙ total) (
            walk-IsHighest low rounds seen' (cumulative + added_stake block.validator seen stakes)
              (omega arith) same' (sum' ∙ kept)))

-- With more stake than none, the result of an update: the height stays where it was, or it is the
-- highest backed one above it.
abbrev pub IsRaised : Dict String ℕ → List Block → ℕ → ℤ → ℤ → Type 0
IsRaised stakes chain new_block_index finalized finalized' =
    ((finalized' ≡ finalized)
      × ((i : ℕ) → finalized <ℤ pos i → i ≤ new_block_index → ¬ (IsBacked stakes chain i)))
    ⊎ ((i : ℕ) × (finalized' ≡ pos i)
        × (finalized <ℤ pos i)
        × (i ≤ new_block_index)
        × IsBacked stakes chain i
        × ((j : ℕ) → i < j → j ≤ new_block_index → ¬ (IsBacked stakes chain j)))

first_open-le : (finalized : ℤ) (i : ℕ) → finalized <ℤ pos i → first_open finalized ≤ i
unfolding ◌+ℤ◌
first_open-le finalized i h = ground arith

le-first_open :
    (finalized : ℤ) (i : ℕ) → negsuc 0 ≤ℤ finalized → first_open finalized ≤ i → finalized <ℤ pos i
unfolding ◌+ℤ◌
le-first_open finalized i h g = ground arith

module _ (stakes : Dict String ℕ) (chain : List Block) (new_block_index : ℕ) (finalized : ℤ) where
  IsRaised-raise_to :
      (o : Option ℕ)
      → negsuc 0 ≤ℤ finalized
      → IsHighest stakes chain (first_open finalized) (suc new_block_index) o
      → IsRaised stakes chain new_block_index finalized (raise_to finalized o)
  IsRaised-raise_to none known h =
      inl (refl, λ i above le. h i (first_open-le finalized i above) (omega arith))
  IsRaised-raise_to (some i) known (le, lt, backed, none_above) =
      let above = le-first_open finalized i known le in
      let higher : ltb_ℤ finalized (pos i) ≡ true = ground (arith, above) in
      rw higher (inr (i, refl, above, omega arith, backed, λ j p q. none_above j p (omega arith)))

  found_IsHighest :
      (low : ℕ)
      → Distinct stakes
      → length chain ≡ suc new_block_index
      → IsHighest stakes chain low
          (suc new_block_index)
          (walk stakes chain (total_ℕ stakes) low (suc new_block_index - low) [] 0)
  unfolding validators_from walk member
  found_IsHighest low distinct len = elim (dec_lt (suc new_block_index) low) [
    | yes past ↦
        (let no_rounds : suc new_block_index - low ≡ 0 = omega arith in
          rw no_rounds (λ i le lt. absurd (omega arith)))
    | no inside ↦
        (let top : low + (suc new_block_index - low) ≡ suc new_block_index = omega arith in
          let whole : low + (suc new_block_index - low) ≡ length chain = top ∙ sym len in
          let nobody : SameMembers [] (validators_from (low + (suc new_block_index - low)) chain) =
            λ x. rw (whole, drop_all chain) refl in
          rw top at (
            walk-IsHighest stakes chain distinct low (suc new_block_index - low) [] 0 (omega arith)
              nobody (sym (held-nil stakes))))
  ]

IsBacked-none_staked :
    (stakes : Dict String ℕ) (chain : List Block) (i : ℕ)
    → (total_ℕ stakes == 0) ≡ true
    → ¬ (IsBacked stakes chain i)
IsBacked-none_staked stakes chain i unstaked backed =
    let bound = held-le-total stakes (validators_from i chain) in
    let empty : total_ℕ stakes ≡ 0 = ground arith in absurd (omega arith)

-- After a block is appended to an active chain, the final height stays where it was, or it rises to
-- the highest block from which on the validators, that of the block itself among them and each
-- counted once, hold more than 2/3 of all stake; it stays only if no block above it is so backed.
pub update_finality-IsRaised :
    (stakes : Dict String ℕ) (chain : List Block) (new_block_index : ℕ) (finalized : ℤ)
    → Distinct stakes
    → length chain ≡ suc new_block_index
    → negsuc 0 ≤ℤ finalized
    → IsRaised stakes chain new_block_index finalized
        (update_finality true stakes chain new_block_index finalized)
unfolding update_finality
update_finality-IsRaised stakes chain new_block_index finalized distinct len known =
    elim (Bool-cases (total_ℕ stakes == 0)) [
      | inl unstaked ↦
          rw unstaked (inl (refl, λ i above le. IsBacked-none_staked stakes chain i unstaked))
      | inr staked ↦ rw staked (
          IsRaised-raise_to stakes chain new_block_index finalized _ known (
            found_IsHighest stakes chain new_block_index finalized (first_open finalized) distinct
              len))
    ]
