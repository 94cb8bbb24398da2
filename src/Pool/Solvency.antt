-- ===== src/Pool/Solvency.antt =====
-- What an admitted transaction reserves is covered by the balance of its sender.
use qbit_network.Common.{
  ℕ, ◌*◌, Bool, true, false, ◌&&◌, ◌≡◌, refl, sym, ap, ◌∙◌, ltb, str_eq, if◌then◌else◌, if-true,
  if-false, Bool-cases, inl, inr,
}
use qbit_network.Common.Int.{ℤ, pos, ◌+ℤ◌, ◌-ℤ◌, ◌≤ℤ◌, ltb_ℤ, ltb_ℤ→le, +ℤ_zero, int_laws}
use qbit_network.Common.Dict.{string_eq}
use qbit_network.Common.Exec.{accept, refuse_if_lem}
use qbit_network.Config.{TxType, tx_weights, tx_fees}
use qbit_network.Transaction.{Transaction, amount}
use qbit_network.Fees.{tx_weight}
use qbit_network.Ledger.{get_balance, pending_debits, calc_tx_debit}
use qbit_network.Pool.{Pool, Chain, dynamic_active, next_debit}
use qbit_network.Pool.Admission.{
  Rejection, Admitted, extra_debit, is_transfer, refuse_uncovered, check_dynamic_balance,
  check_fixed_balance, check_balance,
}

-- The fee that is reserved, which the height decides.
abbrev pub reserved_fee : Bool → ℕ → TxType → ℕ
reserved_fee true cap t = cap * tx_weight t
reserved_fee false cap t = tx_fees t

-- The balance that is not reserved yet.
abbrev pub available : Transaction → Chain → Pool → ℤ
available tx c p =
    get_balance tx.sender c.finance.ledger -ℤ pending_debits tx.sender p.pending_debits_cache

refuse_uncovered_lem :
    (need : ℤ) (tx : Transaction) (c : Chain) (p : Pool) (k : Admitted)
    → refuse_uncovered need tx c p k ≡ accept
    → need ≤ℤ available tx c p
refuse_uncovered_lem need tx c p k h =
    ltb_ℤ→le (available tx c p) need
      (refuse_if_lem (ltb_ℤ (available tx c p) need) Rejection.insufficient_balance k h).0

-- A transaction with a fee has that fee and its amount covered.
-- A transaction with a weight has its fee and its amount covered.
check_dynamic_balance_lem :
    (tx : Transaction) (c : Chain) (p : Pool) (k : Admitted)
    → check_dynamic_balance tx c p k ≡ accept
    → ltb 0 (tx_weight tx.tx_type) ≡ true
    → pos (tx.max_fee_per_weight * tx_weight tx.tx_type) +ℤ extra_debit tx.tx_type tx
      ≤ℤ available tx c p
unfolding check_dynamic_balance
check_dynamic_balance_lem tx c p k h heavy =
    let pays = if-true (ltb 0 (tx_weight tx.tx_type)) _ _ _ heavy h in
    let (_, rest) =
      refuse_if_lem (is_transfer tx.tx_type && str_eq tx.recipient "") Rejection.recipient_required
        _ pays in
    refuse_uncovered_lem _ tx c p k rest

-- The amount of a transfer, in the order in which the fixed branch adds.
transfer_order :
    (t : TxType) (tx : Transaction) (fee limit : ℤ)
    → is_transfer t ≡ true
    → amount tx +ℤ fee ≤ℤ limit
    → fee +ℤ extra_debit t tx ≤ℤ limit
transfer_order TxType.transfer tx fee limit e h = omega int_laws
transfer_order TxType.share tx fee limit e h = cc
transfer_order TxType.stake tx fee limit e h = cc
transfer_order TxType.delegate tx fee limit e h = cc
transfer_order TxType.unstake tx fee limit e h = cc
transfer_order TxType.register_key tx fee limit e h = cc
transfer_order TxType.register_validator tx fee limit e h = cc
transfer_order TxType.revoke_key tx fee limit e h = cc
transfer_order TxType.notarize tx fee limit e h = cc
transfer_order TxType.store tx fee limit e h = cc
transfer_order TxType.evidence tx fee limit e h = cc
transfer_order TxType.issue_token tx fee limit e h = cc
transfer_order TxType.mint_token tx fee limit e h = cc
transfer_order TxType.transfer_token tx fee limit e h = cc

-- The same under the fixed fees: a transfer, and any other type with a fee.
check_fixed_balance_lem :
    (tx : Transaction) (c : Chain) (p : Pool) (k : Admitted)
    → check_fixed_balance tx c p k ≡ accept
    → ltb 0 (tx_fees tx.tx_type) ≡ true
    → pos (tx_fees tx.tx_type) +ℤ extra_debit tx.tx_type tx ≤ℤ available tx c p
unfolding check_fixed_balance
check_fixed_balance_lem tx c p k h paid = elim (Bool-cases (is_transfer tx.tx_type)) [
  | inl yes_transfer ↦
      let moves = if-true (is_transfer tx.tx_type) _ _ _ yes_transfer h in
      let (_, rest) = refuse_if_lem (str_eq tx.recipient "") Rejection.recipient_required _ moves in
      transfer_order tx.tx_type tx (pos (tx_fees tx.tx_type)) (available tx c p) yes_transfer
        (refuse_uncovered_lem _ tx c p k rest)
  | inr other ↦
      let pays = if-false (is_transfer tx.tx_type) _ _ _ other h in
      refuse_uncovered_lem _ tx c p k (if-true (ltb 0 (tx_fees tx.tx_type)) _ _ _ paid pays)
]

-- The types that pay a fee.
abbrev pub pays_fee : Bool → TxType → Bool
pays_fee true t = ltb 0 (tx_weight t)
pays_fee false t = ltb 0 (tx_fees t)

check_balance_lem :
    (dyn : Bool) (tx : Transaction) (c : Chain) (p : Pool) (k : Admitted)
    → check_balance dyn tx c p k ≡ accept
    → c.finance.ledger.financial_active ≡ true
    → pays_fee dyn tx.tx_type ≡ true
    → pos (reserved_fee dyn tx.max_fee_per_weight tx.tx_type) +ℤ extra_debit tx.tx_type tx
      ≤ℤ available tx c p
unfolding check_balance
check_balance_lem true tx c p k h active paid =
    check_dynamic_balance_lem tx c p k (if-true c.finance.ledger.financial_active _ _ _ active h)
      paid
check_balance_lem false tx c p k h active paid =
    check_fixed_balance_lem tx c p k (if-true c.finance.ledger.financial_active _ _ _ active h) paid

-- What `_calc_tx_debit` reserves: the fee and the amount.
debit_by :
    (t : TxType) (fee : ℤ) (tx : Transaction)
    → (elim t [
      | TxType.transfer ↦ fee +ℤ amount tx
      | TxType.stake ↦ fee +ℤ amount tx
      | TxType.delegate ↦ fee +ℤ amount tx
      | _ ↦ fee
    ])
      ≡ fee +ℤ extra_debit t tx
debit_by TxType.share fee tx = sym (+ℤ_zero fee)
debit_by TxType.stake fee tx = refl
debit_by TxType.delegate fee tx = refl
debit_by TxType.unstake fee tx = sym (+ℤ_zero fee)
debit_by TxType.transfer fee tx = refl
debit_by TxType.register_key fee tx = sym (+ℤ_zero fee)
debit_by TxType.register_validator fee tx = sym (+ℤ_zero fee)
debit_by TxType.revoke_key fee tx = sym (+ℤ_zero fee)
debit_by TxType.notarize fee tx = sym (+ℤ_zero fee)
debit_by TxType.store fee tx = sym (+ℤ_zero fee)
debit_by TxType.evidence fee tx = sym (+ℤ_zero fee)
debit_by TxType.issue_token fee tx = sym (+ℤ_zero fee)
debit_by TxType.mint_token fee tx = sym (+ℤ_zero fee)
debit_by TxType.transfer_token fee tx = sym (+ℤ_zero fee)

next_debit_lem :
    (activation : ℕ) (c : Chain) (tx : Transaction)
    → next_debit activation c tx
      ≡ pos (reserved_fee (dynamic_active activation c) tx.max_fee_per_weight tx.tx_type)
        +ℤ extra_debit tx.tx_type tx
unfolding calc_tx_debit
next_debit_lem activation c tx =
    debit_by tx.tx_type _ tx
    ∙ ap (λ x. x +ℤ extra_debit tx.tx_type tx) (fee (dynamic_active activation c))
  where
    fee :
        (dyn : Bool)
        → (if dyn
            then pos (tx.max_fee_per_weight * tx_weight tx.tx_type)
            else pos (tx_fees tx.tx_type))
          ≡ pos (reserved_fee dyn tx.max_fee_per_weight tx.tx_type)
    fee true = refl
    fee false = refl

-- A type without a fee reserves nothing.
free_debit :
    (dyn : Bool) (cap : ℕ) (t : TxType) (tx : Transaction)
    → pays_fee dyn t ≡ false
    → pos (reserved_fee dyn cap t) +ℤ extra_debit t tx ≡ pos 0
unfolding tx_weight tx_weights tx_fees
free_debit true cap TxType.share tx h = cc
free_debit false cap TxType.share tx h = cc
free_debit true cap TxType.stake tx h = cc
free_debit false cap TxType.stake tx h = cc
free_debit true cap TxType.delegate tx h = cc
free_debit false cap TxType.delegate tx h = cc
free_debit true cap TxType.unstake tx h = cc
free_debit false cap TxType.unstake tx h = cc
free_debit true cap TxType.transfer tx h = cc
free_debit false cap TxType.transfer tx h = cc
free_debit true cap TxType.register_key tx h = cc
free_debit false cap TxType.register_key tx h = cc
free_debit true cap TxType.register_validator tx h = cc
free_debit false cap TxType.register_validator tx h = cc
free_debit true cap TxType.revoke_key tx h = omega int_laws
free_debit false cap TxType.revoke_key tx h = omega int_laws
free_debit true cap TxType.notarize tx h = cc
free_debit false cap TxType.notarize tx h = cc
free_debit true cap TxType.store tx h = cc
free_debit false cap TxType.store tx h = cc
free_debit true cap TxType.evidence tx h = omega int_laws
free_debit false cap TxType.evidence tx h = omega int_laws
free_debit true cap TxType.issue_token tx h = cc
free_debit false cap TxType.issue_token tx h = cc
free_debit true cap TxType.mint_token tx h = cc
free_debit false cap TxType.mint_token tx h = cc
free_debit true cap TxType.transfer_token tx h = cc
free_debit false cap TxType.transfer_token tx h = cc

-- With the financial layer active, what an admitted transaction reserves is not more than what its
-- sender has left.
pub next_debit_covered :
    (activation : ℕ) (tx : Transaction) (c : Chain) (p : Pool) (k : Admitted)
    → check_balance (dynamic_active activation c) tx c p k ≡ accept
    → c.finance.ledger.financial_active ≡ true
    → pos 0 ≤ℤ available tx c p
    → next_debit activation c tx ≤ℤ available tx c p
next_debit_covered activation tx c p k h active left =
    let dyn = dynamic_active activation c in
    rw (next_debit_lem activation c tx) (elim (Bool-cases (pays_fee dyn tx.tx_type)) [
      | inl paid ↦ check_balance_lem dyn tx c p k h active paid
      | inr free ↦ rw (free_debit dyn tx.max_fee_per_weight tx.tx_type tx free) left
    ])
