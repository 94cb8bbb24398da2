-- ===== src/Staking/Rewards.antt =====
-- The epoch rewards of core/staking.py never raise, and move money between balances only.
use qbit_network.Common.{
  ℕ, zero, suc, ◌+◌, ◌*◌, ◌/◌, ◌≤◌, String, Bool, true, false, ◌||◌, List, [], ◌∷◌, Option, none,
  some, ltb, ◌==◌, str_eq, arith, ◌≡◌, inl, inr, refl, Bool-cases, sym, ◌∙◌,
}
use mathlib.Core.Path.{subst}
use native.Mathlib.Nat.{div-mul-le_self, le_trans}
use qbit_network.Common.Int.{ℤ, pos, pos_part, ◌+ℤ◌, ◌-ℤ◌, int_laws, +ℤ_zero, pos_add, parts_apart}
use qbit_network.Common.Dict.{Dict, get_or, string_eq, nat_eq, Distinct, total}
use qbit_network.Common.Exec.{
  Exec, pure, ◌>>=◌, Outcome, Outcome-bind, bind_ok, Outcome-imp, Outcome-ok, Result,
}
use qbit_network.Config.{default_commission_rate}
use qbit_network.Finance.{Distribution, Stakes, Staking, Finance}
use qbit_network.Ledger.{Error, Ledger, credit, debit, get_balance}
use qbit_network.Ledger.Moves.{MovedBy, credit_returns, debit-MovedBy}
use qbit_network.Staking.Epochs.{
  delegated, pay_delegators, delegator_pool, settle_validator, distribute_to, distribute_all,
  distribute_epoch_rewards, join,
}

-- From `l` to `l'` the sum of balances grew by `x`, and the fields that are no balances stayed.
pub record Grew (x : ℤ) (l l' : Ledger) : Type 0 where
  pub grown : total l'.balances ≡ total l.balances +ℤ x
  pub minted : l'.total_minted ≡ l.total_minted
  pub burned : l'.total_burned ≡ l.total_burned
  pub active : l'.financial_active ≡ l.financial_active
  pub distinct : Distinct l'.balances

pub Grew-refl : (l : Ledger) → Distinct l.balances → Grew (pos 0) l l
Grew-refl l u = record {
  grown = sym (+ℤ_zero (total l.balances));
  minted = refl;
  burned = refl;
  active = refl;
  distinct = u;
}

pub Grew-trans : {x y : ℤ} (k l m : Ledger) → Grew x k l → Grew y l m → Grew (x +ℤ y) k m
Grew-trans {x} {y} k l m p q = record {
  grown = rw (q.grown, p.grown) (omega int_laws);
  minted = q.minted ∙ p.minted;
  burned = q.burned ∙ p.burned;
  active = q.active ∙ p.active;
  distinct = q.distinct;
}

pub moved-Grew : (a j : String) (x : ℤ) (l l' : Ledger) → MovedBy a x j l l' → Grew x l l'
moved-Grew a j x l l' m = record {
  grown = m.0;
  minted = m.2;
  burned = m.3;
  active = m.4;
  distinct = m.5;
}

there_and_back : (x : ℕ) → pos x +ℤ (pos 0 -ℤ pos x) ≡ pos 0
there_and_back x = omega int_laws

first_false : (b c : Bool) → (b || c) ≡ false → b ≡ false
first_false true c h = h
first_false false c h = refl

zero_minus : (x : ℕ) → pos x -ℤ pos x ≡ pos 0
zero_minus x = omega int_laws

-- The shares of a pool do not exceed it.
share_fits : (pool stake t : ℕ) → pool * stake / t * t ≤ pool * stake
share_fits pool stake t = div-mul-le_self (pool * stake) t

module _ (v : String) (pool t : ℕ) where
  -- What the loop over the delegators does.
  abbrev Paid : Dict String ℕ → Ledger → ℕ × List (String × ℕ) → Ledger → Type 0
  Paid d l paid l' =
      Grew (pos paid.0) l l'
      × (get_balance v l' ≡ get_balance v l)
      × (paid.0 * t ≤ pool * delegated v d)

  pay_delegators-Paid :
      (d : Dict String ℕ) (l : Ledger)
      → Distinct l.balances
      → Outcome (Paid d l) (λ e l'. ⊥) (pay_delegators v pool t d l)
  unfolding pay_delegators delegated
  pay_delegators-Paid [] l u = (Grew-refl l u, refl, omega arith)
  pay_delegators-Paid ((a, stake) ∷ d) l u =
      let share = pool * stake / t in
      let finish : ℕ × List (String × ℕ) → Exec Error Ledger (ℕ × List (String × ℕ)) =
        λ paid. pure (share + paid.0, (a, share) ∷ paid.1) in
      elim (Bool-cases (str_eq a v)) [
        | inl self ↦ rw self (
            Outcome-imp (Paid d l) _ (λ e l'. ⊥) (pay_delegators v pool t d l)
              (pay_delegators-Paid d l u) (λ paid l' p. (p.0, p.1, omega (arith, p.2))))
        | inr other ↦ elim (Bool-cases (share == 0)) [
          | inl nothing ↦
              rw (other, nothing)
                (Outcome-imp (Paid d l) _ (λ e l'. ⊥) (pay_delegators v pool t d l)
                  (pay_delegators-Paid d l u) (λ paid l' p. (p.0, p.1, grind (arith, p.2))))
          | inr something ↦
              let credited = credit_returns a v (pos share) l u (omega arith) in
              let l1 = (credit a (pos share) l).1 in
              rw (other, something)
                (rw
                  (bind_ok (credit a (pos share)) (λ _. pay_delegators v pool t d >>= finish) l tt
                    credited.0)
                  (Outcome-bind (Paid d l1) _ (λ e l'. ⊥) (pay_delegators v pool t d) finish l1
                    (pay_delegators-Paid d l1 credited.1.5)
                    (λ paid l' p. (
                      subst (λ x. Grew x l l') (pos_add share paid.0)
                          (Grew-trans l l1 l' (moved-Grew a v (pos share) l l1 credited.1) p.0),
                      p.1 ∙ credited.1.1 ∙ (rw other),
                      rw other (grind (arith, p.2, share_fits pool stake t)),
                    ))))
        ]
      ]

debit_covered :
    (v : String) (x : ℕ) (l : Ledger)
    → Distinct l.balances
    → x ≤ pos_part (get_balance v l)
    → Outcome (λ _ l'. MovedBy v (pos 0 -ℤ pos x) v l l') (λ e l'. ⊥) (debit v (pos x) l)
debit_covered v x l u h =
    let o = debit-MovedBy v v (pos x) l u in
    let r =
      Outcome-ok _ _ (debit v (pos x) l) o
        (λ e l' n. omega (arith, n.0, parts_apart (get_balance v l))) in
    rw r.1 r.2.2

-- A call that returns, and by how much the balances grew.
abbrev Grows : {A : Type 0} → ℤ → Ledger → Result Error A × Ledger → Type 0
Grows x l r = Outcome (λ _ l'. Grew x l l') (λ e l'. ⊥) r

suc_positive : (x : ℕ) → ltb 0 (suc x) ≡ true
suc_positive x = ground arith

-- The validator pays what the delegators got, if it holds as much.
settle_validator-Grows :
    (v : String) (x : ℕ) (l : Ledger)
    → Distinct l.balances
    → x ≤ pos_part (get_balance v l)
    → Grows (pos 0 -ℤ pos x) l (settle_validator v x l)
unfolding settle_validator
settle_validator-Grows v zero l u h = subst (λ y. Grew y l l) (sym (zero_minus 0)) (Grew-refl l u)
settle_validator-Grows v (suc x) l u h =
    let finish : Unit {0} → Exec Error Ledger (List (String × ℕ)) = λ _. pure ((v, suc x) ∷ []) in
    let y = pos 0 -ℤ pos (suc x) in
    rw (suc_positive x) (
      Outcome-bind (λ _ l'. MovedBy v y v l l') (λ _ l'. Grew y l l') (λ e l'. ⊥)
        (debit v (pos (suc x))) finish l (debit_covered v (suc x) l u h)
        (λ _ l' m. moved-Grew v v y l l' m))

-- The pool is at most what the validator holds.
delegator_pool-le :
    (rewards rate : ℕ) (snapshot : Option (Dict String ℤ)) (v : String) (l : Ledger)
    → delegator_pool rewards rate snapshot v l ≤ pos_part (get_balance v l)
unfolding delegator_pool
delegator_pool-le rewards rate none v l = omega arith
delegator_pool-le rewards rate (some d) v l = ground arith

cancel_right : (p q t : ℕ) → (t == 0) ≡ false → p * t ≤ q * t → p ≤ q
cancel_right p q t h le = grind arith

module _ (snapshot : Option (Dict String ℤ)) (s : Staking) where
  distribute_to-Grows :
      (v : String) (stakes : Dict String ℕ) (l : Ledger)
      → Distinct l.balances
      → Grows (pos 0) l (distribute_to snapshot s v stakes l)
  unfolding distribute_to
  distribute_to-Grows v stakes l u =
      let t = delegated v stakes in
      let rewards = get_or v 0 s.epoch_rewards in
      let rate = get_or v default_commission_rate s.validator_commission in
      let pool = delegator_pool rewards rate snapshot v l in
      elim (Bool-cases (t == 0 || rewards == 0)) [
        | inl skip ↦ rw skip (Grew-refl l u)
        | inr pay ↦ rw pay (
            Outcome-bind (Paid v pool t stakes l) (λ _ l'. Grew (pos 0) l l') (λ e l'. ⊥)
              (pay_delegators v pool t stakes) _ l (pay_delegators-Paid v pool t stakes l u)
              (λ paid l1 p.
                let enough : paid.0 ≤ pool =
                  cancel_right paid.0 pool t (first_false (t == 0) (rewards == 0) pay) p.2 in
                let close : List (String × ℕ) → Exec Error Ledger Distribution =
                  λ debits. pure (record { credits = paid.1; debits = debits }) in
                Outcome-bind (λ _ l2. Grew (pos 0 -ℤ pos paid.0) l1 l2) (λ _ l'. Grew (pos 0) l l')
                  (λ e l'. ⊥) (settle_validator v paid.0) close l1
                  (settle_validator-Grows v paid.0 l1 p.0.distinct
                    (rw p.1 (le_trans enough (delegator_pool-le rewards rate snapshot v l))))
                  (λ _ l2 g.
                    subst (λ x. Grew x l l2) (there_and_back paid.0) (Grew-trans l l1 l2 p.0 g))))
      ]

  distribute_all-Grows :
      (d : Stakes) (l : Ledger)
      → Distinct l.balances
      → Grows (pos 0) l (distribute_all snapshot s d l)
  unfolding distribute_all
  distribute_all-Grows [] l u = Grew-refl l u
  distribute_all-Grows ((v, stakes) ∷ d) l u =
      let step : Distribution → Exec Error Ledger Distribution =
        λ here. distribute_all snapshot s d >>= λ later. pure (join here later) in
      Outcome-bind (λ _ l1. Grew (pos 0) l l1) (λ _ l'. Grew (pos 0) l l') (λ e l'. ⊥)
        (distribute_to snapshot s v stakes) step l (distribute_to-Grows v stakes l u)
        (λ here l1 g.
          let close : Distribution → Exec Error Ledger Distribution =
            λ later. pure (join here later) in
          Outcome-bind (λ _ l2. Grew (pos 0) l1 l2) (λ _ l'. Grew (pos 0) l l') (λ e l'. ⊥)
            (distribute_all snapshot s d) close l1 (distribute_all-Grows d l1 g.distinct)
            (λ later l2 k. subst (λ x. Grew x l l2) (pos_add 0 0) (Grew-trans l l1 l2 g k)))

-- From balances with no repeated address, the distribution of an epoch's rewards never raises
-- (the validator can always pay what its delegators got), leaves the sum of balances, the minted and
-- the burned totals as they were, and touches no stake and no unbonding entry.
pub distribute_epoch_rewards_conserves :
    (epoch_number : ℕ) (snapshot : Option (Dict String ℤ)) (f : Finance)
    → Distinct f.ledger.balances
    → Outcome
        (λ _ f'.
          Grew (pos 0) f.ledger f'.ledger
          × (f'.staking.stakes ≡ f.staking.stakes)
          × (f'.staking.total_stake ≡ f.staking.total_stake)
          × (f'.staking.unbonding ≡ f.staking.unbonding))
        (λ e f'. ⊥)
        (distribute_epoch_rewards epoch_number snapshot f)
unfolding distribute_epoch_rewards
distribute_epoch_rewards_conserves n snapshot f u =
    let all = distribute_all snapshot f.staking f.staking.stakes f.ledger in
    let r =
      Outcome-ok _ _ all (distribute_all-Grows snapshot f.staking f.staking.stakes f.ledger u)
        (λ e l' n. n) in
    rw (r.1, Outcome, distribute_epoch_rewards) (r.2, refl, refl, refl)
