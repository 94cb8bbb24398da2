-- ===== src/Staking/Consistency.antt =====
-- STAKE, DELEGATE, UNSTAKE and EVIDENCE against the two records of the stakes: the amount of each
-- staker (`_stakes`) and the total of each validator (`_total_stake`).
use qbit_network.Common.{
  ℕ, ◌+◌, ◌-◌, ◌≤◌, String, true, false, not, ◌&&◌, [], Option, none, some, ◌==◌, if◌then◌else◌,
  str_eq, arith, ◌≡◌, inl, inr, refl, Bool-cases, ap, sym, ◌∙◌, eq_iff,
}
use qbit_network.Common.Lists.{sum_by-append}
use qbit_network.Common.Int.{ℤ, pos, pos_part, ltb_ℤ}
use qbit_network.Common.Dict.{
  Dict, lookup, put, pop, get_or, or_else, string_eq, total_ℕ, total_ℕ-put, total_ℕ-pop, lookup-put,
}
use qbit_network.Finance.{Stakes, Staking, unbonding_total}
use qbit_network.Staking.{
  stakes_of, get_validator_stake, get_staker_info, reduce_stake, add_stake, remove_stake,
}

-- The total of a validator is the sum of what its stakers hold.
abbrev pub Agrees : String → Staking → Type 0
Agrees v s = get_validator_stake v s ≡ total_ℕ (stakes_of v s)

-- STAKE and DELEGATE keep the total of every validator equal to the sum of its stakers.
pub add_stake-Agrees :
    (v staker vaddr : String) (amount : ℤ) (s : Staking)
    → Agrees v s
    → Agrees v (add_stake staker vaddr amount s)
unfolding add_stake get_validator_stake get_staker_info
add_stake-Agrees v staker vaddr amount s h =
    elim (Bool-cases (not (str_eq vaddr "") && ltb_ℤ (pos 0) amount)) [
      | inl done ↦
          let new = get_or staker 0 (stakes_of vaddr s) + pos_part amount in
          let held = put staker new (stakes_of vaddr s) in
          rw done (elim (Bool-cases (str_eq vaddr v)) [
            | inl same ↦
                let e = (eq_iff vaddr v).0 same in
                rw
                  (
                    lookup-put v vaddr held s.stakes,
                    lookup-put v vaddr (get_or vaddr 0 s.total_stake + pos_part amount)
                        s.total_stake,
                    same,
                  )
                  (grind (arith, h, e, total_ℕ-put staker new (stakes_of vaddr s)))
            | inr other ↦
                rw
                  (
                    lookup-put v vaddr held s.stakes,
                    lookup-put v vaddr (get_or vaddr 0 s.total_stake + pos_part amount)
                        s.total_stake,
                    other,
                  )
                  h
          ])
      | inr undone ↦ rw undone h
    ]

eq_refl : (v : String) → str_eq v v ≡ true
eq_refl v = (eq_iff v v).1 refl

module _ (staker vaddr : String) (stakes : Stakes) where
  reduce_stake_total :
      (a : ℕ) (o : Option (Dict String ℕ))
      → lookup vaddr stakes ≡ o
      → a ≤ get_or staker 0 (or_else o [])
      → total_ℕ (
            get_or vaddr []
              (reduce_stake staker vaddr (get_or staker 0 (or_else o []) - a) o stakes))
          + a
        ≡ total_ℕ (or_else o [])
  unfolding lookup
  reduce_stake_total a none e h = rw e (omega (arith, h))
  reduce_stake_total a (some held) e h =
      let new = get_or staker 0 held - a in
      rw
        (
          lookup-put vaddr vaddr (if new == 0 then pop staker held else put staker new held) stakes,
          eq_refl vaddr,
        )
        (grind (arith, h, total_ℕ-put staker new held, total_ℕ-pop staker held))

  reduce_stake_other :
      (v : String) (new : ℕ) (o : Option (Dict String ℕ))
      → str_eq vaddr v ≡ false
      → get_or v [] (reduce_stake staker vaddr new o stakes) ≡ get_or v [] stakes
  reduce_stake_other v new none h = refl
  reduce_stake_other v new (some held) h =
      rw (lookup-put v vaddr (if new == 0 then pop staker held else put staker new held) stakes, h)
        refl

-- UNSTAKE of no more than the staker holds keeps the total of every validator equal to the sum of
-- its stakers.
pub remove_stake-Agrees :
    (v staker vaddr : String) (amount : ℤ) (idx : ℕ) (s : Staking)
    → pos_part amount ≤ get_staker_info staker vaddr s
    → Agrees v s
    → Agrees v (remove_stake staker vaddr amount idx s)
unfolding remove_stake get_validator_stake get_staker_info
remove_stake-Agrees v staker vaddr amount idx s covered h =
    elim (Bool-cases (not (str_eq vaddr "") && ltb_ℤ (pos 0) amount)) [
      | inl done ↦
          let new = get_or staker 0 (stakes_of vaddr s) - pos_part amount in
          let left = get_or vaddr 0 s.total_stake - pos_part amount in
          rw done (elim (Bool-cases (str_eq vaddr v)) [
            | inl same ↦
                let e = (eq_iff vaddr v).0 same in
                rw (lookup-put v vaddr left s.total_stake, same)
                  (grind (
                    arith,
                    reduce_stake_total staker vaddr s.stakes (pos_part amount)
                        (lookup vaddr s.stakes) refl covered,
                    h,
                    e,
                  ))
            | inr other ↦
                rw (lookup-put v vaddr left s.total_stake, other)
                  (h
                    ∙ ap total_ℕ (
                        sym (
                          reduce_stake_other staker vaddr s.stakes v new (lookup vaddr s.stakes)
                            other)))
          ])
      | inr undone ↦ rw undone h
    ]

-- What an UNSTAKE of more than the total of the validator adds to the sum of staked and unbonding
-- amounts: the part of the amount that was never staked.
pub remove_stake_supply :
    (staker vaddr : String) (amount : ℤ) (idx : ℕ) (s : Staking)
    → str_eq vaddr "" ≡ false
    → ltb_ℤ (pos 0) amount ≡ true
    → let s' = remove_stake staker vaddr amount idx s in
      total_ℕ s'.total_stake + unbonding_total s'.unbonding
      ≡ total_ℕ s.total_stake
        + unbonding_total s.unbonding
        + (pos_part amount - get_validator_stake vaddr s)
unfolding remove_stake get_validator_stake get_staker_info unbonding_total
remove_stake_supply staker vaddr amount idx s named positive =
    rw (named, positive)
      (rw (sum_by-append (λ e. e.amount) s.unbonding) (
        omega
          (arith, total_ℕ-put vaddr (get_validator_stake vaddr s - pos_part amount) s.total_stake)))
