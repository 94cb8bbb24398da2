-- ===== src/Ledger/Reward.antt =====
-- The block rewards and the genesis allocation of core/ledger.py against the supply cap.
use native.Mathlib.Nat.{
  pow-le-pow_right, le-div_iff_mul-le, div-mul-le_self, one-le-pow, div-le_self,
}
use qbit_network.Common.{
  sym, ◌⊎◌, ℕ, zero, suc, ◌*◌, ◌/◌, ◌^◌, ◌≤◌, ◌<◌, String, Bool, true, false, ◌≡◌, inl, inr, refl,
  arith, Bool-cases, str_eq, ◌&&◌, not,
}
use qbit_network.Common.Int.{
  ℤ, pos, ◌+ℤ◌, ◌-ℤ◌, ◌≤ℤ◌, ◌<ℤ◌, leb_ℤ, eqb_ℤ, min_ℤ, max_ℤ, int_laws, le→leb_ℤ, le→eqb_ℤ,
  eqb_ℤ→le, leb_ℤ→le,
}
use qbit_network.Common.Dict.{Distinct, total, string_eq}
use qbit_network.Common.Exec.{ok, modify, bind_ok}
use qbit_network.Config.{
  max_supply, initial_block_reward, halving_interval, genesis_balance_qbit, qubit_per_qbit,
}
use qbit_network.Ledger.{Ledger, credit, get_balance, calc_block_reward, activate_financial_layer}
use qbit_network.Ledger.Moves.{credit_returns}

module _ (s cap : ℕ) (m : ℤ) where
  -- A schedule of `s`, cut to what the cap leaves.
  abbrev capped : ℤ
  capped = min_ℤ (pos s) (max_ℤ (pos 0) (pos cap -ℤ m))

  capped_bounds : m ≤ℤ pos cap → (pos 0 ≤ℤ capped) × (capped ≤ℤ pos s) × (m +ℤ capped ≤ℤ pos cap)
  unfolding ◌-ℤ◌ ◌+ℤ◌
  capped_bounds h = ground arith

bool_iff : (b c : Bool) → (b ≡ true → c ≡ true) → (c ≡ true → b ≡ true) → b ≡ c
bool_iff true c f g = sym (f refl)
bool_iff false true f g = g refl
bool_iff false false f g = refl

module _ (s cap : ℕ) (m : ℤ) where
  capped_mono : (t : ℕ) → t ≤ s → capped t cap m ≤ℤ capped s cap m
  unfolding ◌-ℤ◌
  capped_mono t h = ground arith

  capped_cases :
      m ≤ℤ pos cap
      → ((capped s cap m ≤ℤ pos s) × (pos s ≤ℤ capped s cap m) × (m +ℤ pos s ≤ℤ pos cap))
        ⊎ ((capped s cap m ≤ℤ pos cap -ℤ m)
            × (pos cap -ℤ m ≤ℤ capped s cap m)
            × (pos cap <ℤ m +ℤ pos s))
  capped_cases h = grind int_laws

module _ (s cap : ℕ) (m : ℤ) where
  capped_again :
      m ≤ℤ pos cap
      → eqb_ℤ (capped s cap (m +ℤ capped s cap m)) (capped s cap m)
        ≡ leb_ℤ (m +ℤ capped s cap m +ℤ capped s cap m) (pos cap)
  capped_again h =
      let c = capped s cap m in
      let bounds = capped_bounds s cap m h in
      let before = capped_cases s cap m h in
      let after = capped_cases s cap (m +ℤ c) bounds.2 in
      let c' = capped s cap (m +ℤ c) in
      bool_iff (eqb_ℤ c' c) (leb_ℤ (m +ℤ c +ℤ c) (pos cap))
        (λ same.
          le→leb_ℤ (m +ℤ c +ℤ c) (pos cap)
            (omega (int_laws, eqb_ℤ→le c' c same, before, after, bounds)))
        (λ room.
          le→eqb_ℤ c' c
            (omega (int_laws, leb_ℤ→le (m +ℤ c +ℤ c) (pos cap) room, before, after, bounds)))

-- While no more than the cap is minted, a reward is never negative, is at most the initial reward,
-- and takes the minted total no further than the cap.
pub calc_block_reward_bounds :
    (i : ℕ) (l : Ledger)
    → l.total_minted ≤ℤ pos max_supply
    → (pos 0 ≤ℤ calc_block_reward i l)
      × (calc_block_reward i l ≤ℤ pos initial_block_reward)
      × (l.total_minted +ℤ calc_block_reward i l ≤ℤ pos max_supply)
unfolding calc_block_reward
calc_block_reward_bounds zero l h = (omega arith, omega arith, omega (int_laws, h))
calc_block_reward_bounds (suc i) l h =
    let s = initial_block_reward / 2 ^ (suc i / halving_interval) in
    let b = capped_bounds s max_supply l.total_minted h in
    (
      b.0,
      omega (arith, b.1, div-le_self initial_block_reward (2 ^ (suc i / halving_interval))),
      b.2,
    )

divided : (n a b : ℕ) → 0 < a → a ≤ b → n / b ≤ n / a
divided n a b p h = (le-div_iff_mul-le p).1 (grind (arith, div-mul-le_self n b))

halved :
    (i k : ℕ)
    → i ≤ k
    → initial_block_reward / 2 ^ (k / halving_interval)
      ≤ initial_block_reward / 2 ^ (i / halving_interval)
halved i k h =
    divided initial_block_reward (2 ^ (i / halving_interval)) (2 ^ (k / halving_interval))
      (one-le-pow (i / halving_interval) 2 (omega arith))
      (pow-le-pow_right (omega arith) (omega arith))

-- After the genesis block, later blocks earn no more than earlier ones from the same minted total.
pub calc_block_reward_halves :
    (i k : ℕ) (l : Ledger) → 0 < i → i ≤ k → calc_block_reward k l ≤ℤ calc_block_reward i l
unfolding calc_block_reward
calc_block_reward_halves zero k l p h = absurd (omega arith)
calc_block_reward_halves (suc i) zero l p h = absurd (omega arith)
calc_block_reward_halves (suc i) (suc k) l p h =
    capped_mono (initial_block_reward / 2 ^ (suc i / halving_interval)) max_supply l.total_minted
      (initial_block_reward / 2 ^ (suc k / halving_interval)) (halved (suc i) (suc k) h)

-- The rollback computes the reward of a block again, from the minted total that has this reward in
-- it already. While no more than the cap is minted, it finds the same
-- reward exactly if the cap leaves room for the reward twice.
pub calc_block_reward_again :
    (i : ℕ) (l : Ledger)
    → l.total_minted ≤ℤ pos max_supply
    → let r = calc_block_reward i l in
      eqb_ℤ (calc_block_reward i (record l { total_minted = l.total_minted +ℤ r })) r
      ≡ leb_ℤ (l.total_minted +ℤ r +ℤ r) (pos max_supply)
unfolding calc_block_reward
calc_block_reward_again zero l h =
    sym (le→leb_ℤ (l.total_minted +ℤ pos 0 +ℤ pos 0) (pos max_supply) (omega int_laws))
calc_block_reward_again (suc i) l h =
    capped_again (initial_block_reward / 2 ^ (suc i / halving_interval)) max_supply l.total_minted h

-- With no address listed twice, activation allocates at most once: a second call changes nothing, and what the first one credits
-- is what it counts as minted.
pub activate_financial_layer_once :
    (v w : String) (l : Ledger)
    → Distinct l.balances
    → let l' = (activate_financial_layer v l).1 in
      ((activate_financial_layer v l).0 ≡ ok tt)
      × (activate_financial_layer w l' ≡ (ok tt, l'))
      × (total l'.balances -ℤ l'.total_minted ≡ total l.balances -ℤ l.total_minted)
unfolding activate_financial_layer
activate_financial_layer_once v w l u =
    let fresh = record l { financial_active = true } in
    let granted =
      credit_returns v v (pos (genesis_balance_qbit * qubit_per_qbit)) fresh u (omega arith) in
    elim (Bool-cases l.financial_active) [
      | inl active ↦ ground arith
      | inr inactive ↦
          elim (Bool-cases (not (str_eq v "") && eqb_ℤ (get_balance v fresh) (pos 0))) [
            | inl first ↦
                let g = pos (genesis_balance_qbit * qubit_per_qbit) in
                let count = λ (m : Ledger). record m { total_minted = m.total_minted +ℤ g } in
                rw (inactive, first)
                  (rw (bind_ok (credit v g) (λ _. modify count) fresh tt granted.0)
                    (rw granted.1.4 (refl, refl, rw (granted.1.0, granted.1.2) (omega int_laws))))
            | inr skip ↦ ground arith
          ]
    ]
