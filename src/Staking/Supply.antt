-- ===== src/Staking/Supply.antt =====
-- Mature unbondings and staking transactions of core/staking.py against the supply invariant.
use mathlib.Core.Path.{subst}
use qbit_network.Common.{
  ℕ, ◌+◌, true, List, [], ◌∷◌, leb, if◌then◌else◌, arith, ◌≡◌, inl, inr, refl, Bool-cases, sum_by,
  ap, ◌∙◌,
}
use qbit_network.Common.Int.{pos, int_laws, pos_add}
use qbit_network.Common.Dict.{string_eq, Distinct}
use qbit_network.Common.Exec.{
  Exec, pure, Outcome, Outcome-bind, Outcome-imp, Outcome-ok, Outcome-if_true, ◌>>◌, bind_ok,
}
use qbit_network.Finance.{Unbonding, Finance, unbonding_total, supply_invariant}
use qbit_network.Ledger.{Error, Ledger, credit}
use qbit_network.Ledger.Moves.{credit_returns}
use qbit_network.Staking.Epochs.{release_mature, process_mature_unbondings}
use qbit_network.Staking.Rewards.{Grew, Grew-refl, Grew-trans, moved-Grew}

-- The entries that are not due at block `idx`, in order.
abbrev pub immature : ℕ → List Unbonding → List Unbonding
immature idx [] = []
immature idx (e ∷ l) = if leb e.release_block idx then immature idx l else e ∷ immature idx l

-- What the others hold.
abbrev pub released : ℕ → List Unbonding → ℕ
released idx l = sum_by (λ e. if leb e.release_block idx then e.amount else 0) l

released_rest :
    (idx : ℕ) (l : List Unbonding)
    → released idx l + unbonding_total (immature idx l) ≡ unbonding_total l
unfolding unbonding_total
released_rest idx [] = omega arith
released_rest idx (e ∷ l) = ground (arith, released_rest idx l)

abbrev Released : ℕ → List Unbonding → Ledger → List Unbonding → Ledger → Type 0
Released idx entries l remaining l' =
    Grew (pos (released idx entries)) l l' × (remaining ≡ immature idx entries)

release_mature-Released :
    (idx : ℕ) (entries : List Unbonding) (l : Ledger)
    → Distinct l.balances
    → l.financial_active ≡ true
    → Outcome (Released idx entries l) (λ e l'. ⊥) (release_mature idx entries l)
unfolding release_mature
release_mature-Released idx [] l u active = (Grew-refl l u, refl)
release_mature-Released idx (e ∷ entries) l u active = elim (Bool-cases (leb e.release_block idx)) [
  | inl due ↦
      let paid = credit_returns e.staker e.staker (pos e.amount) l u (omega arith) in
      let l1 = (credit e.staker (pos e.amount) l).1 in
      let rest = release_mature idx entries in
      rw due (
        Outcome-if_true (Released idx (e ∷ entries) l) (λ e l'. ⊥) l.financial_active
          ((credit e.staker (pos e.amount) >> rest) l) (rest l) active
          (rw
            (bind_ok (credit e.staker (pos e.amount)) (λ _. release_mature idx entries) l tt paid.0)
            (Outcome-imp (Released idx entries l1) _ (λ e l'. ⊥) (release_mature idx entries l1)
              (release_mature-Released idx entries l1 paid.1.5 (paid.1.4 ∙ active))
              (λ remaining l2 r. (
                rw due (
                    subst (λ x. Grew x l l2) (pos_add e.amount (released idx entries))
                      (Grew-trans l l1 l2 (moved-Grew e.staker e.staker (pos e.amount) l l1 paid.1)
                        r.0)),
                rw due r.1,
              )))))
  | inr later ↦
      let keep : List Unbonding → Exec Error Ledger (List Unbonding) =
        λ remaining. pure (e ∷ remaining) in
      rw later (
        Outcome-bind (Released idx entries l) _ (λ e l'. ⊥) (release_mature idx entries) keep l
          (release_mature-Released idx entries l u active)
          (λ remaining l2 r. (
            rw later (subst (λ x. Grew (pos x) l l2) (omega arith) r.0),
            rw later (ap (λ t. e ∷ t) r.1),
          )))
]

-- With the financial layer active and no repeated address, the mature unbondings of a block never
-- raise: exactly the entries that are due leave the list, and the supply invariant stays what it was.
pub process_mature_unbondings_conserves :
    (idx : ℕ) (f : Finance)
    → Distinct f.ledger.balances
    → f.ledger.financial_active ≡ true
    → Outcome
        (λ _ f'.
          (f'.staking.unbonding ≡ immature idx f.staking.unbonding)
          × (supply_invariant f' ≡ supply_invariant f)
          × Distinct f'.ledger.balances)
        (λ e f'. ⊥)
        (process_mature_unbondings idx f)
unfolding process_mature_unbondings supply_invariant
process_mature_unbondings_conserves idx f u active =
    let entries = f.staking.unbonding in
    let all = release_mature idx entries f.ledger in
    let r =
      Outcome-ok _ _ all (release_mature-Released idx entries f.ledger u active) (λ e l' n. n) in
    rw (r.1, Outcome, process_mature_unbondings)
      (
        r.2.1,
        rw (r.2.1, r.2.0.grown, r.2.0.minted, r.2.0.burned)
            (omega (int_laws, released_rest idx entries)),
        r.2.0.distinct,
      )
