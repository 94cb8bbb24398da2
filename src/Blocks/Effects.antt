-- ===== src/Blocks/Effects.antt =====
-- The change that each step of block processing (core/blockchain.py) and of its rollback
-- (core/rollback.py) makes to the ledger.
use qbit_network.Common.{
  ℕ, ◌-◌, ◌/◌, String, Bool, true, false, ◌≡◌, refl, inl, inr, Bool-cases, str_eq, if◌then◌else◌,
  arith, ltb,
}
use qbit_network.Common.Int.{ℤ, pos, ◌+ℤ◌, ◌-ℤ◌, ◌≤ℤ◌, int_laws, ltb_ℤ}
use qbit_network.Common.Dict.{Distinct, string_eq}
use qbit_network.Common.Exec.{Exec, pure, modify, ◌>>◌, Outcome-bind, Outcome-weaken}
use qbit_network.Config.{TxType}
use qbit_network.Fees.{tx_weight, compute_tx_fee}
use qbit_network.Transaction.{Transaction}
use qbit_network.Ledger.{Error, Ledger, get_balance, credit, debit}
use qbit_network.Blocks.{Block, fee_of, burn, charge_fee, lock_amount, move_by}
use qbit_network.Blocks.Changes.{
  at, Changed, Changed-refl, Changed-trans, Changed-eq, MayChange, credit-Changed, debit-Changed,
}

-- What the validator gets of a fee.
abbrev pub validator_share : Bool → ℕ → ℕ
validator_share true fee = fee
validator_share false fee = fee / 2

module _ (dyn : Bool) (block : Block) (tx : Transaction) where
  abbrev pub fee : ℕ
  fee = fee_of dyn block.base_fee tx

  abbrev pub share : ℕ
  share = validator_share dyn fee

  abbrev pub fee_delta : String → ℤ
  fee_delta j = at tx.sender (pos 0 -ℤ pos fee) j +ℤ at block.validator (pos share) j

-- A debit and then a credit of another amount.
pay :
    {A : Type 0} (s v : String) (x y : ℤ) (k : Exec Error Ledger A) (d : String → ℤ) (z w : ℤ)
    (l : Ledger)
    → Distinct l.balances
    → (pos 0 ≤ℤ x → pos 0 ≤ℤ y)
    → ((l' : Ledger)
        → Changed (λ j. at s (pos 0 -ℤ x) j +ℤ at v y j) (pos 0 -ℤ x +ℤ y) (pos 0 +ℤ pos 0) l l'
        → MayChange d z w l (k l'))
    → MayChange d z w l ((debit s x >> (credit v y >> k)) l)
pay s v x y k d z w l u h rest =
    Outcome-bind (λ _ l1. (pos 0 ≤ℤ x) × Changed (at s (pos 0 -ℤ x)) (pos 0 -ℤ x) (pos 0) l l1)
      (λ _ l'. Changed d z w l l') (λ e l'. Unit {0}) (debit s x) (λ _. credit v y >> k) l
      (debit-Changed s x l u)
      (λ _ l1 p.
        Outcome-bind (λ _ l2. Changed (at v y) y (pos 0) l1 l2) (λ _ l'. Changed d z w l l')
          (λ e l'. Unit {0}) (credit v y) (λ _. k) l1
          (Outcome-weaken _ _ _ (credit v y l1) (credit-Changed v y l1 p.1.distinct (h p.0))
            (λ _ _ c. c))
          (λ _ l2 q. rest l2 (
            Changed-trans (at s (pos 0 -ℤ x)) (at v y) (pos 0 -ℤ x) (pos 0) y (pos 0) l l1 l2 p.1
              q)))

-- The change of a payment of `f` of which `sh` arrives, and its reverse.
abbrev pub paid : String → String → ℕ → ℕ → String → ℤ
paid s v f sh j = at s (pos 0 -ℤ pos f) j +ℤ at v (pos sh) j

abbrev pub repaid : String → String → ℕ → ℕ → String → ℤ
repaid s v f sh j = at v (pos 0 -ℤ pos sh) j +ℤ at s (pos f) j

at_zero :
    (b c : Bool) → pos 0 ≡ (if b then pos 0 -ℤ pos 0 else pos 0) +ℤ (if c then pos 0 else pos 0)
at_zero true true = omega int_laws
at_zero true false = omega int_laws
at_zero false true = omega int_laws
at_zero false false = omega int_laws

pub no_payment :
    (s v : String) (f sh : ℕ) (l : Ledger)
    → Distinct l.balances
    → f ≡ 0
    → sh ≡ 0
    → Changed (paid s v f sh) (pos 0 -ℤ pos f +ℤ pos sh) (pos (f - sh)) l l
no_payment s v f sh l u ef es =
    Changed-eq (λ j. pos 0) (paid s v f sh) (pos 0) (pos 0 -ℤ pos f +ℤ pos sh) (pos 0)
      (pos (f - sh)) l l (Changed-refl l u) (λ j. rw (ef, es) (at_zero (str_eq s j) (str_eq v j)))
      (rw (ef, es) (omega int_laws)) (rw (ef, es) (omega int_laws))

burned-Changed :
    (d : String → ℤ) (x : ℤ) (b : ℕ) (l l' : Ledger)
    → Changed d x (pos 0 +ℤ pos 0) l l'
    → Changed d x (pos b) l (burn b l')
unfolding get_balance
burned-Changed d x b l l' c = record {
  balance = λ j. c.balance j;
  sum = c.sum;
  burned = rw c.burned (omega int_laws);
  minted = c.minted;
  active = c.active;
  distinct = c.distinct;
}

pub zero_of : (f : ℕ) → ltb 0 f ≡ false → f ≡ 0
zero_of f h = ground (arith, h)

pub half_of : (f : ℕ) → ltb 0 f ≡ false → f / 2 ≡ 0
half_of f h = rw (zero_of f h) refl

pub free : (base cap priority w : ℕ) → ltb 0 w ≡ false → compute_tx_fee base cap priority w ≡ 0
unfolding compute_tx_fee
free base cap priority w h = ground (arith, h)

-- A fee changes the sender and the validator, and burns what the validator does not get.
pub charge_fee-Changes :
    (dyn : Bool) (block : Block) (tx : Transaction) (l : Ledger)
    → Distinct l.balances
    → MayChange
        (fee_delta dyn block tx)
        (pos 0 -ℤ pos (fee dyn block tx) +ℤ pos (share dyn block tx))
        (pos (fee dyn block tx - share dyn block tx))
        l
        (charge_fee dyn block tx l)
unfolding charge_fee fee_of
charge_fee-Changes true block tx l u =
    let f = fee_of true block.base_fee tx in
    elim (Bool-cases (ltb 0 (tx_weight tx.tx_type))) [
      | inl weighs ↦ rw weighs (
          pay tx.sender block.validator (pos f) (pos f) (pure f)
            (paid tx.sender block.validator f f) (pos 0 -ℤ pos f +ℤ pos f) (pos (f - f)) l u
            (λ _. omega arith)
            (λ l' c.
              Changed-eq (paid tx.sender block.validator f f) (paid tx.sender block.validator f f)
                (pos 0 -ℤ pos f +ℤ pos f) (pos 0 -ℤ pos f +ℤ pos f) (pos 0 +ℤ pos 0) (pos (f - f)) l
                l' c (λ j. refl) refl (omega int_laws)))
      | inr weightless ↦ rw weightless (
          no_payment tx.sender block.validator f f l u (free _ _ _ _ weightless)
            (free _ _ _ _ weightless))
    ]
charge_fee-Changes false block tx l u =
    let f = fee_of false block.base_fee tx in
    elim (Bool-cases (ltb 0 f)) [
      | inl some ↦ rw some (
          pay tx.sender block.validator (pos f) (pos (f / 2)) (modify (burn (f - f / 2)) >> pure f)
            (paid tx.sender block.validator f (f / 2)) (pos 0 -ℤ pos f +ℤ pos (f / 2))
            (pos (f - f / 2)) l u (λ _. omega arith)
            (λ l' c.
              burned-Changed (paid tx.sender block.validator f (f / 2))
                (pos 0 -ℤ pos f +ℤ pos (f / 2)) (f - f / 2) l l' c))
      | inr none ↦
          rw none
            (no_payment tx.sender block.validator f (f / 2) l u (zero_of f none) (half_of f none))
    ]

-- ---- Moving amounts ----

-- What a STAKE or DELEGATE of an amount locks.
abbrev pub locked : ℤ → ℤ
locked x = if ltb_ℤ (pos 0) x then x else pos 0

abbrev pub amount_delta : TxType → String → String → ℤ → String → ℤ
amount_delta TxType.transfer s r x j = at s (pos 0 -ℤ x) j +ℤ at r x j
amount_delta TxType.stake s r x j = at s (pos 0 -ℤ locked x) j
amount_delta TxType.delegate s r x j = at s (pos 0 -ℤ locked x) j
amount_delta _ s r x j = pos 0

-- What leaves the balances with a STAKE or DELEGATE.
abbrev pub amount_sum : TxType → ℤ → ℤ
amount_sum TxType.stake x = pos 0 -ℤ locked x
amount_sum TxType.delegate x = pos 0 -ℤ locked x
amount_sum _ x = pos 0

at_nothing : (b : Bool) → pos 0 ≡ (if b then pos 0 -ℤ pos 0 else pos 0)
at_nothing true = omega int_laws
at_nothing false = refl

lock_amount-Changes :
    (s : String) (x : ℤ) (l : Ledger)
    → Distinct l.balances
    → MayChange (at s (pos 0 -ℤ locked x)) (pos 0 -ℤ locked x) (pos 0) l (lock_amount s x l)
unfolding lock_amount
lock_amount-Changes s x l u = elim (Bool-cases (ltb_ℤ (pos 0) x)) [
  | inl positive ↦
      rw positive (Outcome-weaken _ _ _ (debit s x l) (debit-Changed s x l u) (λ _ _ c. c.1))
  | inr none ↦ rw none (
      Changed-eq (λ j. pos 0) (at s (pos 0 -ℤ pos 0)) (pos 0) (pos 0 -ℤ pos 0) (pos 0) (pos 0) l l
        (Changed-refl l u) (λ j. at_nothing (str_eq s j)) (omega int_laws) refl)
]

through : (x : ℤ) → pos 0 -ℤ x +ℤ x ≡ pos 0
through x = omega int_laws

-- A TRANSFER takes from the sender what it gives the recipient; a STAKE or DELEGATE only takes.
pub move_by-Changes :
    (t : TxType) (s r : String) (x : ℤ) (l : Ledger)
    → Distinct l.balances
    → MayChange (amount_delta t s r x) (amount_sum t x) (pos 0) l (move_by t s r x l)
unfolding move_by
move_by-Changes TxType.transfer s r x l u =
    let d = amount_delta TxType.transfer s r x in
    Outcome-bind (λ _ l1. (pos 0 ≤ℤ x) × Changed (at s (pos 0 -ℤ x)) (pos 0 -ℤ x) (pos 0) l l1)
      (λ _ l'. Changed d (pos 0) (pos 0) l l') (λ e l'. Unit {0}) (debit s x) (λ _. credit r x) l
      (debit-Changed s x l u)
      (λ _ l1 p.
        Outcome-weaken _ _ _ (credit r x l1) (credit-Changed r x l1 p.1.distinct p.0) (λ _ l2 q.
          Changed-eq d d (pos 0 -ℤ x +ℤ x) (pos 0) (pos 0 +ℤ pos 0) (pos 0) l l2
            (Changed-trans (at s (pos 0 -ℤ x)) (at r x) (pos 0 -ℤ x) (pos 0) x (pos 0) l l1 l2 p.1
              q)
            (λ j. refl) (through x) (omega int_laws)))
move_by-Changes TxType.stake s r x l u = lock_amount-Changes s x l u
move_by-Changes TxType.delegate s r x l u = lock_amount-Changes s x l u
move_by-Changes _ s r x l u = Changed-refl l u
