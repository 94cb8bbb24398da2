-- ===== src/Blocks/Supply.antt =====
-- Block processing (core/blockchain.py) against the supply invariant of core/rollback.py.
use qbit_network.Common.{
  ℕ, ◌+◌, ◌-◌, ◌≤◌, String, Bool, true, false, ◌≡◌, refl, ap, ◌∙◌, inl, inr, Bool-cases, str_eq,
  arith, ltb, List,
}
use qbit_network.Common.Int.{ℤ, pos, ◌+ℤ◌, ◌-ℤ◌, int_laws, pos_part, ltb_ℤ, ltb_ℤ→lt, parts_apart}
use qbit_network.Common.Dict.{Distinct, total, total_ℕ, total_ℕ-put, string_eq}
use qbit_network.Common.Exec.{Outcome, Outcome-imp}
use qbit_network.Config.{TxType}
use qbit_network.Transaction.{Transaction, amount, get_text}
use qbit_network.Finance.{Staking, Finance, unbonding_total, supply_invariant}
use qbit_network.Staking.{get_validator_stake, add_stake, remove_stake}
use qbit_network.Staking.Consistency.{remove_stake_supply}
use qbit_network.Blocks.{Block, apply_staking, apply_staking_by, apply_tx}
use qbit_network.Blocks.Changes.{Changed}
use qbit_network.Blocks.Effects.{fee, share, locked, amount_sum, validator_share}
use qbit_network.Blocks.Undo.{tx_delta, tx_sum, tx_burn}
use qbit_network.Blocks.Apply.{apply_tx-Changes}

-- What is staked or unbonding.
abbrev pub bonded : Staking → ℕ
bonded s = total_ℕ s.total_stake + unbonding_total s.unbonding

bonded-add_stake :
    (staker vaddr : String) (x : ℤ) (s : Staking)
    → str_eq vaddr "" ≡ false
    → pos (bonded (add_stake staker vaddr x s)) ≡ pos (bonded s) -ℤ (pos 0 -ℤ locked x)
unfolding add_stake get_validator_stake
bonded-add_stake staker vaddr x s named = elim (Bool-cases (ltb_ℤ (pos 0) x)) [
  | inl positive ↦
      rw (named, positive)
        (omega (
          int_laws,
          total_ℕ-put vaddr (get_validator_stake vaddr s + pos_part x) s.total_stake,
          ltb_ℤ→lt (pos 0) x positive,
          parts_apart x,
        ))
  | inr none ↦ rw (named, none) (omega int_laws)
]

bonded-remove_stake :
    (staker vaddr : String) (x : ℤ) (idx : ℕ) (s : Staking)
    → pos_part x ≤ get_validator_stake vaddr s
    → bonded (remove_stake staker vaddr x idx s) ≡ bonded s
unfolding remove_stake
bonded-remove_stake staker vaddr x idx s covered = elim (Bool-cases (str_eq vaddr "")) [
  | inl unnamed ↦ rw unnamed refl
  | inr named ↦ elim (Bool-cases (ltb_ℤ (pos 0) x)) [
    | inl positive ↦ omega (arith, remove_stake_supply staker vaddr x idx s named positive, covered)
    | inr none ↦ rw (named, none) refl
  ]
]

-- A staking transaction whose amount is accounted for: a STAKE or DELEGATE names a validator, an
-- UNSTAKE takes no more than the total of the validator. EVIDENCE is left out: what a slash takes
-- is in no total.
abbrev pub IsSettled : TxType → Transaction → Staking → Type 0
IsSettled TxType.stake tx s = str_eq (get_text "validator_address" tx) "" ≡ false
IsSettled TxType.delegate tx s = str_eq (get_text "validator_address" tx) "" ≡ false
IsSettled TxType.unstake tx s =
    pos_part (amount tx) ≤ get_validator_stake (get_text "validator_address" tx) s
IsSettled TxType.evidence tx s = ⊥
IsSettled _ tx s = Unit {0}

minus_nothing : (x : ℕ) → pos x ≡ pos x -ℤ pos 0
minus_nothing x = omega int_laws

module _ (mldsa_verify : List ℕ → List ℕ → List ℕ → Bool) where
  bonded-apply_staking_by :
      (t : TxType) (idx : ℕ) (tx : Transaction) (s : Staking)
      → IsSettled t tx s
      → pos (bonded (apply_staking_by mldsa_verify t idx tx s))
        ≡ pos (bonded s) -ℤ amount_sum t (amount tx)
  unfolding apply_staking_by
  bonded-apply_staking_by TxType.stake idx tx s h =
      bonded-add_stake tx.sender (get_text "validator_address" tx) (amount tx) s h
  bonded-apply_staking_by TxType.delegate idx tx s h =
      bonded-add_stake tx.sender (get_text "validator_address" tx) (amount tx) s h
  bonded-apply_staking_by TxType.unstake idx tx s h =
      rw (bonded-remove_stake tx.sender (get_text "validator_address" tx) (amount tx) idx s h)
        (minus_nothing (bonded s))
  bonded-apply_staking_by TxType.evidence idx tx s h = absurd h
  bonded-apply_staking_by _ idx tx s h = minus_nothing (bonded s)

share_le : (dyn : Bool) (f : ℕ) → validator_share dyn f ≤ f
share_le true f = omega arith
share_le false f = omega arith

module _ (held burned minted a : ℤ) (f sh ts ts' un un' : ℕ) where
  gather :
      sh ≤ f
      → held
          +ℤ (pos 0 -ℤ pos f +ℤ pos sh +ℤ a)
          +ℤ pos ts'
          +ℤ (burned +ℤ (pos (f - sh) +ℤ pos 0))
          +ℤ pos un'
          -ℤ minted
        ≡ pos (ts' + un') +ℤ (held +ℤ burned +ℤ a -ℤ minted)
  gather h = omega (int_laws, h)

  spread :
      pos (ts + un) -ℤ a +ℤ (held +ℤ burned +ℤ a -ℤ minted)
      ≡ held +ℤ pos ts +ℤ burned +ℤ pos un -ℤ minted
  spread = omega int_laws

-- With the financial layer active and no address listed twice, a transaction of a block after the
-- genesis block that returns keeps the supply invariant, if its staking amount is accounted for.
pub apply_tx_conserves :
    (mldsa_verify : List ℕ → List ℕ → List ℕ → Bool) (dyn : Bool) (block : Block) (idx : ℕ)
    (tx : Transaction) (f : Finance)
    → ltb 0 idx ≡ true
    → f.ledger.financial_active ≡ true
    → Distinct f.ledger.balances
    → IsSettled tx.tx_type tx f.staking
    → Outcome
        (λ _ f'. supply_invariant f' ≡ supply_invariant f)
        (λ e f'. Unit {0})
        (apply_tx mldsa_verify dyn block idx tx f)
unfolding supply_invariant apply_staking
apply_tx_conserves mldsa_verify dyn block idx tx f started active u settled =
    Outcome-imp
      (λ _ f'.
        Changed (tx_delta dyn block tx) (tx_sum dyn block tx) (tx_burn dyn block tx) f.ledger
          f'.ledger
        × (f'.staking ≡ apply_staking mldsa_verify idx tx f.staking))
      (λ _ f'. supply_invariant f' ≡ supply_invariant f) (λ e f'. Unit {0})
      (apply_tx mldsa_verify dyn block idx tx f)
      (apply_tx-Changes mldsa_verify dyn block idx started tx f u active)
      (λ _ f' p.
        rw (p.1, p.0.sum, p.0.burned, p.0.minted)
          (let s' = apply_staking mldsa_verify idx tx f.staking in
            let a = amount_sum tx.tx_type (amount tx) in
            let l = f.ledger in
            let ts = total_ℕ f.staking.total_stake in
            let un = unbonding_total f.staking.unbonding in
            let held = total l.balances in
            gather held l.total_burned l.total_minted a (fee dyn block tx) (share dyn block tx) ts
              (total_ℕ s'.total_stake) un (unbonding_total s'.unbonding)
              (share_le dyn (fee dyn block tx))
            ∙ ap (λ z. z +ℤ (held +ℤ l.total_burned +ℤ a -ℤ l.total_minted))
                (bonded-apply_staking_by mldsa_verify tx.tx_type idx tx f.staking settled)
            ∙ spread held l.total_burned l.total_minted a (fee dyn block tx) (share dyn block tx) ts
                (total_ℕ s'.total_stake) un (unbonding_total s'.unbonding)))
