-- ===== src/Blocks/Apply.antt =====
-- The change that the loop over the transactions of a block makes to the ledger
-- (core/blockchain.py), and that the rollback restores what was before (core/rollback.py).
use qbit_network.Common.{
  ℕ, ◌-◌, String, Bool, true, false, ◌&&◌, ◌≡◌, refl, ap, ◌∙◌, ltb, List, [], ◌∷◌, All,
}
use qbit_network.Common.Int.{ℤ, pos, ◌+ℤ◌, ◌-ℤ◌, int_laws}
use qbit_network.Common.Dict.{Distinct, total, string_eq}
use qbit_network.Common.Exec.{
  Exec, Result, ok, err, modify, ◌>>=◌, ◌>>◌, Outcome, Outcome-bind, Outcome-imp, Outcome-if_true,
}
use qbit_network.Transaction.{Transaction, amount}
use qbit_network.Ledger.{Error, Ledger, get_balance}
use qbit_network.Finance.{Finance, set_staking, set_ledger}
use qbit_network.Blocks.{
  Block, charge_fee, move_amount, apply_staking, apply_tx, apply_txs, on_ledger,
}
use qbit_network.Blocks.Rollback.{revert_txs}
use qbit_network.Blocks.Changes.{Changed, Changed-refl, Changed-trans}
use qbit_network.Blocks.Effects.{
  fee, share, fee_delta, amount_delta, amount_sum, charge_fee-Changes, move_by-Changes,
}
use qbit_network.Blocks.Reverse.{opposite}
use qbit_network.Blocks.Undo.{
  tx_delta, tx_sum, tx_burn, txs_delta, txs_sum, txs_burn, IsPayable, revert_txs-Changes,
}

on_ledger-Outcome :
    {A : Type 0} (P : A → Ledger → Type 0) (Q : Error → Ledger → Type 0) (f : Finance)
    (r : Result Error A × Ledger)
    → Outcome P Q r
    → Outcome
        (λ a f'. P a f'.ledger × (f'.staking ≡ f.staking))
        (λ e f'. Unit {0})
        (r.0, set_ledger r.1 f)
on_ledger-Outcome P Q f (ok a, l) o = (o, refl)
on_ledger-Outcome P Q f (err e, l) o = tt

both : (a b : Bool) → a ≡ true → b ≡ true → a && b ≡ true
both true b h e = e
both false b h e = h

module _ (mldsa_verify : List ℕ → List ℕ → List ℕ → Bool) (dyn : Bool) (block : Block) (idx : ℕ)
    (started : ltb 0 idx ≡ true) where
  -- What a transaction does to the state: its change of the ledger, and the staking operation.
  pub apply_tx-Changes :
      (tx : Transaction) (f : Finance)
      → Distinct f.ledger.balances
      → f.ledger.financial_active ≡ true
      → Outcome
          (λ _ f'.
            Changed
              (tx_delta dyn block tx)
              (tx_sum dyn block tx)
              (tx_burn dyn block tx)
              f.ledger
              f'.ledger
            × (f'.staking ≡ apply_staking mldsa_verify idx tx f.staking))
          (λ e f'. Unit {0})
          (apply_tx mldsa_verify dyn block idx tx f)
  unfolding apply_tx move_amount
  apply_tx-Changes tx f u active =
      let staked : Exec Error Finance (Unit {0}) =
        modify (λ g. set_staking (apply_staking mldsa_verify idx tx g.staking) g) in
      let rest : ℕ → Exec Error Finance (Unit {0}) =
        λ fee. (on_ledger (move_amount tx) >> staked) in
      let d = fee_delta dyn block tx in
      let x = pos 0 -ℤ pos (fee dyn block tx) +ℤ pos (share dyn block tx) in
      let b = pos (fee dyn block tx - share dyn block tx) in
      let e = amount_delta tx.tx_type tx.sender tx.recipient (amount tx) in
      let y = amount_sum tx.tx_type (amount tx) in
      let R : Unit {0} → Finance → Type 0 = λ _ f'.
        Changed (tx_delta dyn block tx) (tx_sum dyn block tx) (tx_burn dyn block tx) f.ledger
          f'.ledger
        × (f'.staking ≡ apply_staking mldsa_verify idx tx f.staking) in
      Outcome-if_true R (λ e f'. Unit {0}) (ltb 0 idx && f.ledger.financial_active)
        ((on_ledger (charge_fee dyn block tx) >>= rest) f) (staked f)
        (both (ltb 0 idx) f.ledger.financial_active started active)
        (Outcome-bind (λ _ f1. Changed d x b f.ledger f1.ledger × (f1.staking ≡ f.staking)) R
          (λ e f'. Unit {0}) (on_ledger (charge_fee dyn block tx)) rest f
          (on_ledger-Outcome (λ _ l1. Changed d x b f.ledger l1) (λ e l. Unit {0}) f
            (charge_fee dyn block tx f.ledger) (charge_fee-Changes dyn block tx f.ledger u))
          (λ _ f1 p.
            Outcome-bind
              (λ _ f2. Changed e y (pos 0) f1.ledger f2.ledger × (f2.staking ≡ f1.staking)) R
              (λ e f'. Unit {0}) (on_ledger (move_amount tx)) (λ _. staked) f1
              (on_ledger-Outcome (λ _ l2. Changed e y (pos 0) f1.ledger l2) (λ e l. Unit {0}) f1
                (move_amount tx f1.ledger)
                (move_by-Changes tx.tx_type tx.sender tx.recipient (amount tx) f1.ledger
                  p.0.distinct))
              (λ _ f2 q. (
                Changed-trans d e x b y (pos 0) f.ledger f1.ledger f2.ledger p.0 q.0,
                ap (apply_staking mldsa_verify idx tx) (q.1 ∙ p.1),
              ))))

  pub apply_txs-Changes :
      (txs : List Transaction) (f : Finance)
      → Distinct f.ledger.balances
      → f.ledger.financial_active ≡ true
      → Outcome
          (λ _ f'.
            Changed
              (txs_delta dyn block txs)
              (txs_sum dyn block txs)
              (txs_burn dyn block txs)
              f.ledger
              f'.ledger)
          (λ e f'. Unit {0})
          (apply_txs mldsa_verify dyn block idx txs f)
  unfolding apply_txs
  apply_txs-Changes [] f u active = Changed-refl f.ledger u
  apply_txs-Changes (tx ∷ txs) f u active =
      Outcome-bind
        (λ _ f1.
          Changed (tx_delta dyn block tx) (tx_sum dyn block tx) (tx_burn dyn block tx) f.ledger
            f1.ledger
          × (f1.staking ≡ apply_staking mldsa_verify idx tx f.staking))
        (λ _ f'.
          Changed (txs_delta dyn block (tx ∷ txs)) (txs_sum dyn block (tx ∷ txs))
            (txs_burn dyn block (tx ∷ txs)) f.ledger f'.ledger)
        (λ e f'. Unit {0}) (apply_tx mldsa_verify dyn block idx tx)
        (λ _. apply_txs mldsa_verify dyn block idx txs) f (apply_tx-Changes tx f u active)
        (λ _ f1 p.
          Outcome-imp
            (λ _ f2.
              Changed (txs_delta dyn block txs) (txs_sum dyn block txs) (txs_burn dyn block txs)
                f1.ledger f2.ledger)
            (λ _ f'.
              Changed (txs_delta dyn block (tx ∷ txs)) (txs_sum dyn block (tx ∷ txs))
                (txs_burn dyn block (tx ∷ txs)) f.ledger f'.ledger)
            (λ e f'. Unit {0}) (apply_txs mldsa_verify dyn block idx txs f1)
            (apply_txs-Changes txs f1 p.0.distinct (p.0.active ∙ active))
            (λ _ f2 q.
              Changed-trans (tx_delta dyn block tx) (txs_delta dyn block txs) (tx_sum dyn block tx)
                (tx_burn dyn block tx) (txs_sum dyn block txs) (txs_burn dyn block txs) f.ledger
                f1.ledger f2.ledger p.0 q))

-- The same balances, sum, burned and minted totals.
pub record SameMoney (l l' : Ledger) : Type 0 where
  pub balance : (j : String) → get_balance j l' ≡ get_balance j l
  pub sum : total l'.balances ≡ total l.balances
  pub burned : l'.total_burned ≡ l.total_burned
  pub minted : l'.total_minted ≡ l.total_minted

undone : (a d : ℤ) → a +ℤ d +ℤ (pos 0 -ℤ d) ≡ a
undone a d = omega int_laws

-- With the financial layer active and no address listed twice: once the loop over the transactions
-- of a block after the genesis block has returned, the loop of the rollback over the same
-- transactions, if no transfer of theirs is negative, does not raise and restores every balance,
-- the sum of balances, the burned and the minted total.
pub revert_txs-apply_txs :
    (mldsa_verify : List ℕ → List ℕ → List ℕ → Bool) (dyn : Bool) (block : Block) (idx : ℕ)
    (txs : List Transaction) (f : Finance)
    → ltb 0 idx ≡ true
    → f.ledger.financial_active ≡ true
    → Distinct f.ledger.balances
    → All (IsPayable dyn block) txs
    → Outcome
        (λ _ f'.
          Outcome (λ _ l. SameMoney f.ledger l) (λ e l. ⊥) (revert_txs dyn block txs f'.ledger))
        (λ e f'. Unit {0})
        (apply_txs mldsa_verify dyn block idx txs f)
revert_txs-apply_txs mldsa_verify dyn block idx txs f started active u payable =
    let d = txs_delta dyn block txs in
    let x = txs_sum dyn block txs in
    let b = txs_burn dyn block txs in
    Outcome-imp (λ _ f'. Changed d x b f.ledger f'.ledger) _ (λ e f'. Unit {0})
      (apply_txs mldsa_verify dyn block idx txs f)
      (apply_txs-Changes mldsa_verify dyn block idx started txs f u active)
      (λ _ f' p.
        Outcome-imp (λ _ l. Changed (opposite d) (pos 0 -ℤ x) (pos 0 -ℤ b) f'.ledger l)
          (λ _ l. SameMoney f.ledger l) (λ e l. ⊥) (revert_txs dyn block txs f'.ledger)
          (revert_txs-Changes dyn block txs f'.ledger p.distinct payable)
          (λ _ l q. record {
            balance = λ j. rw (q.balance j, p.balance j) (undone (get_balance j f.ledger) (d j));
            sum = rw (q.sum, p.sum) (undone (total f.ledger.balances) x);
            burned = rw (q.burned, p.burned) (undone f.ledger.total_burned b);
            minted = q.minted ∙ p.minted;
          }))
