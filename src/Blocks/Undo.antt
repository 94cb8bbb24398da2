-- ===== src/Blocks/Undo.antt =====
-- The loop over the transactions of a block (core/blockchain.py) and the loop that takes their
-- balance changes back (core/rollback.py).
use qbit_network.Common.{◌-◌, String, Bool, ◌≡◌, List, [], ◌∷◌, All}
use qbit_network.Common.Int.{ℤ, pos, ◌+ℤ◌, ◌-ℤ◌, ◌≤ℤ◌, int_laws}
use qbit_network.Common.Dict.{Distinct, string_eq}
use qbit_network.Common.Exec.{Outcome-bind, Outcome-imp}
use qbit_network.Transaction.{Transaction, amount}
use qbit_network.Ledger.{Ledger}
use qbit_network.Blocks.{Block}
use qbit_network.Blocks.Rollback.{unmove_amount, refund_fee, revert_tx, revert_txs}
use qbit_network.Blocks.Changes.{Changed, Changed-refl, Changed-trans, Changed-eq, Changes}
use qbit_network.Blocks.Effects.{fee, share, fee_delta, amount_delta, amount_sum}
use qbit_network.Blocks.Reverse.{opposite, transferred, refund_fee-Changes, unmove_by-Changes}

split : (a b : ℤ) → (pos 0 -ℤ b) +ℤ (pos 0 -ℤ a) ≡ pos 0 -ℤ (a +ℤ b)
split a b = omega int_laws

module _ (dyn : Bool) (block : Block) where
  abbrev pub tx_delta : Transaction → String → ℤ
  tx_delta tx j =
      fee_delta dyn block tx j +ℤ amount_delta tx.tx_type tx.sender tx.recipient (amount tx) j

  -- What leaves the balances for the validator's share and for stakes.
  abbrev pub tx_sum : Transaction → ℤ
  tx_sum tx =
      (pos 0 -ℤ pos (fee dyn block tx) +ℤ pos (share dyn block tx))
      +ℤ amount_sum tx.tx_type (amount tx)

  abbrev pub tx_burn : Transaction → ℤ
  tx_burn tx = pos (fee dyn block tx - share dyn block tx) +ℤ pos 0

  abbrev pub txs_delta : List Transaction → String → ℤ
  txs_delta [] j = pos 0
  txs_delta (tx ∷ txs) j = tx_delta tx j +ℤ txs_delta txs j

  abbrev pub txs_sum : List Transaction → ℤ
  txs_sum [] = pos 0
  txs_sum (tx ∷ txs) = tx_sum tx +ℤ txs_sum txs

  abbrev pub txs_burn : List Transaction → ℤ
  txs_burn [] = pos 0
  txs_burn (tx ∷ txs) = tx_burn tx +ℤ txs_burn txs

  -- A transfer of zero or more, as validate_payload demands.
  abbrev pub IsPayable : Transaction → Type 0
  IsPayable tx = pos 0 ≤ℤ transferred tx.tx_type (amount tx)

  revert_tx-Changes :
      (tx : Transaction) (l : Ledger)
      → Distinct l.balances
      → IsPayable tx
      → Changes
          (opposite (tx_delta tx))
          (pos 0 -ℤ tx_sum tx)
          (pos 0 -ℤ tx_burn tx)
          l
          (revert_tx dyn block tx l)
  unfolding revert_tx unmove_amount
  revert_tx-Changes tx l u h =
      let a = amount_delta tx.tx_type tx.sender tx.recipient (amount tx) in
      let f = fee_delta dyn block tx in
      let x = amount_sum tx.tx_type (amount tx) in
      let y = pos 0 -ℤ pos (fee dyn block tx) +ℤ pos (share dyn block tx) in
      let b = pos (fee dyn block tx - share dyn block tx) in
      Outcome-bind (λ _ l1. Changed (opposite a) (pos 0 -ℤ x) (pos 0) l l1)
        (λ _ l2. Changed (opposite (tx_delta tx)) (pos 0 -ℤ tx_sum tx) (pos 0 -ℤ tx_burn tx) l l2)
        (λ e l'. ⊥) (unmove_amount tx) (λ _. refund_fee dyn block tx) l
        (unmove_by-Changes tx.tx_type tx.sender tx.recipient (amount tx) l u h)
        (λ _ l1 p.
          Outcome-imp (λ _ l2. Changed (opposite f) (pos 0 -ℤ y) (pos 0 -ℤ b) l1 l2)
            (λ _ l2.
              Changed (opposite (tx_delta tx)) (pos 0 -ℤ tx_sum tx) (pos 0 -ℤ tx_burn tx) l l2)
            (λ e l'. ⊥) (refund_fee dyn block tx l1) (refund_fee-Changes dyn block tx l1 p.distinct)
            (λ _ l2 q.
              Changed-eq (λ j. opposite a j +ℤ opposite f j) (opposite (tx_delta tx))
                (pos 0 -ℤ x +ℤ (pos 0 -ℤ y)) (pos 0 -ℤ tx_sum tx) (pos 0 +ℤ (pos 0 -ℤ b))
                (pos 0 -ℤ tx_burn tx) l l2
                (Changed-trans (opposite a) (opposite f) (pos 0 -ℤ x) (pos 0) (pos 0 -ℤ y)
                  (pos 0 -ℤ b) l l1 l2 p q)
                (λ j. split (f j) (a j)) (split y x) (omega int_laws)))

  pub revert_txs-Changes :
      (txs : List Transaction) (l : Ledger)
      → Distinct l.balances
      → All IsPayable txs
      → Changes
          (opposite (txs_delta txs))
          (pos 0 -ℤ txs_sum txs)
          (pos 0 -ℤ txs_burn txs)
          l
          (revert_txs dyn block txs l)
  unfolding revert_txs
  revert_txs-Changes [] l u h =
      Changed-eq (λ j. pos 0) (λ j. pos 0 -ℤ pos 0) (pos 0) (pos 0 -ℤ pos 0) (pos 0)
        (pos 0 -ℤ pos 0) l l (Changed-refl l u) (λ j. omega int_laws) (omega int_laws)
        (omega int_laws)
  revert_txs-Changes (tx ∷ txs) l u h =
      let d = opposite (txs_delta (tx ∷ txs)) in
      let x = pos 0 -ℤ txs_sum (tx ∷ txs) in
      let b = pos 0 -ℤ txs_burn (tx ∷ txs) in
      Outcome-bind
        (λ _ l1.
          Changed (opposite (txs_delta txs)) (pos 0 -ℤ txs_sum txs) (pos 0 -ℤ txs_burn txs) l l1)
        (λ _ l2. Changed d x b l l2) (λ e l'. ⊥) (revert_txs dyn block txs)
        (λ _. revert_tx dyn block tx) l (revert_txs-Changes txs l u h.1)
        (λ _ l1 p.
          Outcome-imp
            (λ _ l2.
              Changed (opposite (tx_delta tx)) (pos 0 -ℤ tx_sum tx) (pos 0 -ℤ tx_burn tx) l1 l2)
            (λ _ l2. Changed d x b l l2) (λ e l'. ⊥) (revert_tx dyn block tx l1)
            (revert_tx-Changes tx l1 p.distinct h.0)
            (λ _ l2 q.
              Changed-eq (λ j. opposite (txs_delta txs) j +ℤ opposite (tx_delta tx) j) d
                (pos 0 -ℤ txs_sum txs +ℤ (pos 0 -ℤ tx_sum tx)) x
                (pos 0 -ℤ txs_burn txs +ℤ (pos 0 -ℤ tx_burn tx)) b l l2
                (Changed-trans (opposite (txs_delta txs)) (opposite (tx_delta tx))
                  (pos 0 -ℤ txs_sum txs) (pos 0 -ℤ txs_burn txs) (pos 0 -ℤ tx_sum tx)
                  (pos 0 -ℤ tx_burn tx) l l1 l2 p q)
                (λ j. split (tx_delta tx j) (txs_delta txs j)) (split (tx_sum tx) (txs_sum txs))
                (split (tx_burn tx) (txs_burn txs))))
