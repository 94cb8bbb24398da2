-- ===== src/Blocks/Reverse.antt =====
-- The rollback of balances (core/rollback.py) makes the opposite change of block processing
-- (core/blockchain.py), from whatever ledger it starts.
use qbit_network.Common.{
  ℕ, ◌-◌, ◌/◌, String, Bool, true, false, ◌≡◌, refl, sym, ap, ◌∙◌, inl, inr, Bool-cases, str_eq,
  if◌then◌else◌, arith, ltb,
}
use qbit_network.Common.Int.{ℤ, pos, ◌+ℤ◌, ◌-ℤ◌, ◌≤ℤ◌, int_laws, ltb_ℤ, ltb_ℤ→lt}
use qbit_network.Common.Dict.{Distinct, total, string_eq}
use qbit_network.Common.Exec.{Outcome-imp}
use qbit_network.Config.{TxType}
use qbit_network.Fees.{tx_weight}
use qbit_network.Transaction.{Transaction}
use qbit_network.Ledger.{Ledger, get_balance, credit, rollback_debit}
use qbit_network.Blocks.{Block, fee_of}
use qbit_network.Blocks.Rollback.{unburn, unlock_amount, unmove_by, refund_fee}
use qbit_network.Blocks.Changes.{
  at, Changed, Changed-refl, Changed-trans, Changed-eq, Changes, credit-Changed,
  rollback_debit-Changed,
}
use qbit_network.Blocks.Effects.{
  fee, share, fee_delta, locked, amount_delta, amount_sum, no_payment, zero_of, half_of, free, paid,
}

-- The opposite change.
abbrev pub opposite : (String → ℤ) → String → ℤ
opposite d j = pos 0 -ℤ d j

flip :
    (b c : Bool) (x y : ℤ)
    → (if c then pos 0 -ℤ y else pos 0) +ℤ (if b then x else pos 0)
      ≡ pos 0 -ℤ ((if b then pos 0 -ℤ x else pos 0) +ℤ (if c then y else pos 0))
flip true true x y = omega int_laws
flip true false x y = omega int_laws
flip false true x y = omega int_laws
flip false false x y = omega int_laws

flip_at : (b : Bool) (x : ℤ) → (if b then x else pos 0) ≡ pos 0 -ℤ (if b then pos 0 -ℤ x else pos 0)
flip_at true x = omega int_laws
flip_at false x = omega int_laws

flip_sum : (x y : ℤ) → pos 0 -ℤ y +ℤ x ≡ pos 0 -ℤ (pos 0 -ℤ x +ℤ y)
flip_sum x y = omega int_laws

unburned-Changed :
    (d : String → ℤ) (x : ℤ) (b : ℕ) (l l' : Ledger)
    → Changed d x (pos 0) l l'
    → Changed d x (pos 0 -ℤ pos b) l (unburn b l')
unfolding get_balance
unburned-Changed d x b l l' c = record {
  balance = λ j. c.balance j;
  sum = c.sum;
  burned = rw c.burned (omega int_laws);
  minted = c.minted;
  active = c.active;
  distinct = c.distinct;
}

-- Taking `y` from `v`, then giving `x` back to `s`.
give_back :
    (s v : String) (x y z : ℤ) (l l1 : Ledger)
    → pos 0 ≤ℤ x
    → Changed (at v (pos 0 -ℤ y)) (pos 0 -ℤ y) z l l1
    → Changes
        (opposite (λ j. at s (pos 0 -ℤ x) j +ℤ at v y j))
        (pos 0 -ℤ (pos 0 -ℤ x +ℤ y))
        z
        l
        (credit s x l1)
give_back s v x y z l l1 h c =
    let there : String → ℤ = λ j. at v (pos 0 -ℤ y) j +ℤ at s x j in
    let back : String → ℤ = opposite (λ j. at s (pos 0 -ℤ x) j +ℤ at v y j) in
    Outcome-imp (λ _ l2. Changed (at s x) x (pos 0) l1 l2)
      (λ _ l2. Changed back (pos 0 -ℤ (pos 0 -ℤ x +ℤ y)) z l l2) (λ e l'. ⊥) (credit s x l1)
      (credit-Changed s x l1 c.distinct h)
      (λ _ l2 q.
        Changed-eq there back (pos 0 -ℤ y +ℤ x) (pos 0 -ℤ (pos 0 -ℤ x +ℤ y)) (z +ℤ pos 0) z l l2
          (Changed-trans (at v (pos 0 -ℤ y)) (at s x) (pos 0 -ℤ y) z x (pos 0) l l1 l2 c q)
          (λ j. flip (str_eq s j) (str_eq v j) x y) (flip_sum x y) (omega int_laws))

back_and_forth : (a d : ℤ) → a +ℤ d +ℤ (pos 0 -ℤ d) ≡ a
back_and_forth a d = omega int_laws

minus_same : (a d : ℤ) → a ≡ a +ℤ d → a ≡ a +ℤ (pos 0 -ℤ d)
minus_same a d e = sym (ap (λ t. t +ℤ (pos 0 -ℤ d)) e ∙ back_and_forth a d)

module _ (d : String → ℤ) (x y : ℤ) (l : Ledger) where
  -- A step that changed nothing has nothing to take back.
  opposite-Changed : Changed d x y l l → Changed (opposite d) (pos 0 -ℤ x) (pos 0 -ℤ y) l l
  opposite-Changed c = record {
    balance = λ j. minus_same (get_balance j l) (d j) (c.balance j);
    sum = minus_same (total l.balances) x c.sum;
    burned = minus_same l.total_burned y c.burned;
    minted = refl;
    active = refl;
    distinct = c.distinct;
  }

-- What a TRANSFER moves; the other types move nothing between balances.
abbrev pub transferred : TxType → ℤ → ℤ
transferred TxType.transfer x = x
transferred _ x = pos 0

pub refund_fee-Changes :
    (dyn : Bool) (block : Block) (tx : Transaction) (l : Ledger)
    → Distinct l.balances
    → Changes
        (opposite (fee_delta dyn block tx))
        (pos 0 -ℤ (pos 0 -ℤ pos (fee dyn block tx) +ℤ pos (share dyn block tx)))
        (pos 0 -ℤ pos (fee dyn block tx - share dyn block tx))
        l
        (refund_fee dyn block tx l)
unfolding refund_fee fee_of
refund_fee-Changes true block tx l u =
    let f = fee_of true block.base_fee tx in
    let s = tx.sender in
    let v = block.validator in
    let back = rollback_debit-Changed v (pos f) l u (omega arith) in
    elim (Bool-cases (ltb 0 (tx_weight tx.tx_type))) [
      | inl weighs ↦ rw weighs (
          give_back s v (pos f) (pos f) (pos 0 -ℤ pos (f - f)) l (rollback_debit v (pos f) l)
            (omega arith)
            (Changed-eq (at v (pos 0 -ℤ pos f)) (at v (pos 0 -ℤ pos f)) (pos 0 -ℤ pos f)
              (pos 0 -ℤ pos f) (pos 0) (pos 0 -ℤ pos (f - f)) l (rollback_debit v (pos f) l) back
              (λ j. refl) refl (omega int_laws)))
      | inr weightless ↦
          let none =
            free block.base_fee tx.max_fee_per_weight tx.max_priority_fee (tx_weight tx.tx_type)
              weightless in
          rw weightless (
            opposite-Changed (paid s v f f) (pos 0 -ℤ pos f +ℤ pos f) (pos (f - f)) l
              (no_payment s v f f l u none none))
    ]
refund_fee-Changes false block tx l u =
    let f = fee_of false block.base_fee tx in
    let s = tx.sender in
    let v = block.validator in
    let l1 = rollback_debit v (pos (f / 2)) l in
    elim (Bool-cases (ltb 0 f)) [
      | inl some ↦ rw some (
          give_back s v (pos f) (pos (f / 2)) (pos 0 -ℤ pos (f - f / 2)) l (unburn (f - f / 2) l1)
            (omega arith)
            (unburned-Changed (at v (pos 0 -ℤ pos (f / 2))) (pos 0 -ℤ pos (f / 2)) (f - f / 2) l l1
              (rollback_debit-Changed v (pos (f / 2)) l u (omega arith))))
      | inr none ↦ rw none (
          opposite-Changed (paid s v f (f / 2)) (pos 0 -ℤ pos f +ℤ pos (f / 2)) (pos (f - f / 2)) l
            (no_payment s v f (f / 2) l u (zero_of f none) (half_of f none)))
    ]

flip_zero : (b : Bool) → pos 0 ≡ pos 0 -ℤ (if b then pos 0 -ℤ pos 0 else pos 0)
flip_zero true = omega int_laws
flip_zero false = omega int_laws

above : (x : ℤ) → ltb_ℤ (pos 0) x ≡ true → pos 0 ≤ℤ x
above x h = omega (int_laws, ltb_ℤ→lt (pos 0) x h)

unlock_amount-Changes :
    (s : String) (x : ℤ) (l : Ledger)
    → Distinct l.balances
    → Changes
        (opposite (at s (pos 0 -ℤ locked x)))
        (pos 0 -ℤ (pos 0 -ℤ locked x))
        (pos 0)
        l
        (unlock_amount s x l)
unfolding unlock_amount
unlock_amount-Changes s x l u = elim (Bool-cases (ltb_ℤ (pos 0) x)) [
  | inl positive ↦ rw positive (
      Outcome-imp (λ _ l2. Changed (at s x) x (pos 0) l l2)
        (λ _ l2. Changed (opposite (at s (pos 0 -ℤ x))) (pos 0 -ℤ (pos 0 -ℤ x)) (pos 0) l l2)
        (λ e l'. ⊥) (credit s x l) (credit-Changed s x l u (above x positive))
        (λ _ l2 c.
          Changed-eq (at s x) (opposite (at s (pos 0 -ℤ x))) x (pos 0 -ℤ (pos 0 -ℤ x)) (pos 0)
            (pos 0) l l2 c (λ j. flip_at (str_eq s j) x) (omega int_laws) refl))
  | inr none ↦ rw none (
      Changed-eq (λ j. pos 0) (opposite (at s (pos 0 -ℤ pos 0))) (pos 0) (pos 0 -ℤ (pos 0 -ℤ pos 0))
        (pos 0) (pos 0) l l (Changed-refl l u) (λ j. flip_zero (str_eq s j)) (omega int_laws) refl)
]

pub unmove_by-Changes :
    (t : TxType) (s r : String) (x : ℤ) (l : Ledger)
    → Distinct l.balances
    → pos 0 ≤ℤ transferred t x
    → Changes
        (opposite (amount_delta t s r x))
        (pos 0 -ℤ amount_sum t x)
        (pos 0)
        l
        (unmove_by t s r x l)
unfolding unmove_by
unmove_by-Changes TxType.transfer s r x l u h =
    let back = opposite (amount_delta TxType.transfer s r x) in
    Outcome-imp (λ _ l2. Changed back (pos 0 -ℤ (pos 0 -ℤ x +ℤ x)) (pos 0) l l2)
      (λ _ l2. Changed back (pos 0 -ℤ pos 0) (pos 0) l l2) (λ e l'. ⊥)
      (credit s x (rollback_debit r x l))
      (give_back s r x x (pos 0) l (rollback_debit r x l) h (rollback_debit-Changed r x l u h))
      (λ _ l2 c.
        Changed-eq back back (pos 0 -ℤ (pos 0 -ℤ x +ℤ x)) (pos 0 -ℤ pos 0) (pos 0) (pos 0) l l2 c
          (λ j. refl) (omega int_laws) refl)
unmove_by-Changes TxType.stake s r x l u h = unlock_amount-Changes s x l u
unmove_by-Changes TxType.delegate s r x l u h = unlock_amount-Changes s x l u
unmove_by-Changes _ s r x l u h =
    Changed-eq (λ j. pos 0) (λ j. pos 0 -ℤ pos 0) (pos 0) (pos 0 -ℤ pos 0) (pos 0) (pos 0) l l
      (Changed-refl l u) (λ j. omega int_laws) (omega int_laws) refl
