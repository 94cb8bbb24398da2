-- ===== src/Blocks/Changes.antt =====
-- The net change of a ledger: by how much each balance, their sum and the burned total differ from
-- before. Changes add up, so that the effect of block processing (core/blockchain.py) and of its
-- rollback (core/rollback.py) is a sum.
use mathlib.Core.Path.{subst}
use qbit_network.Common.{
  String, Bool, true, false, ◌≡◌, refl, sym, ◌∙◌, inl, inr, Bool-cases, str_eq, if◌then◌else◌,
}
use qbit_network.Common.Int.{ℤ, pos, ◌+ℤ◌, ◌-ℤ◌, ◌≤ℤ◌, int_laws, +ℤ_zero, leb_ℤ, leb_ℤ→le}
use qbit_network.Common.Dict.{Distinct, total, string_eq}
use qbit_network.Common.Exec.{Result, ok, err, Outcome, Outcome-weaken}
use qbit_network.Ledger.{Error, Ledger, get_balance, credit, debit, rollback_debit}
use qbit_network.Ledger.Moves.{MovedBy, credit_returns, debit-MovedBy, rollback_debit-MovedBy}

-- A change by `x` at address `a` and nowhere else.
abbrev pub at : String → ℤ → String → ℤ
at a x j = if str_eq a j then x else pos 0

-- From `l` to `l'` the balance of `j` changed by `d j`, the sum of balances by `x`, and the burned
-- total by `y`; the minted total is the same.
pub record Changed (d : String → ℤ) (x y : ℤ) (l l' : Ledger) : Type 0 where
  pub balance : (j : String) → get_balance j l' ≡ get_balance j l +ℤ d j
  pub sum : total l'.balances ≡ total l.balances +ℤ x
  pub burned : l'.total_burned ≡ l.total_burned +ℤ y
  pub minted : l'.total_minted ≡ l.total_minted
  pub active : l'.financial_active ≡ l.financial_active
  pub distinct : Distinct l'.balances

pub Changed-refl : (l : Ledger) → Distinct l.balances → Changed (λ j. pos 0) (pos 0) (pos 0) l l
Changed-refl l u = record {
  balance = λ j. sym (+ℤ_zero (get_balance j l));
  sum = sym (+ℤ_zero (total l.balances));
  burned = sym (+ℤ_zero l.total_burned);
  minted = refl;
  active = refl;
  distinct = u;
}

assoc : (a b c : ℤ) → a +ℤ b +ℤ c ≡ a +ℤ (b +ℤ c)
assoc a b c = omega int_laws

pub Changed-trans :
    (d e : String → ℤ) (x y z w : ℤ) (k l m : Ledger)
    → Changed d x y k l
    → Changed e z w l m
    → Changed (λ j. d j +ℤ e j) (x +ℤ z) (y +ℤ w) k m
Changed-trans d e x y z w k l m p q = record {
  balance = λ j. rw (q.balance j, p.balance j) (assoc (get_balance j k) (d j) (e j));
  sum = rw (q.sum, p.sum) (assoc (total k.balances) x z);
  burned = rw (q.burned, p.burned) (assoc k.total_burned y w);
  minted = q.minted ∙ p.minted;
  active = q.active ∙ p.active;
  distinct = q.distinct;
}

at_moved : (b : Bool) (v x : ℤ) → (if b then v +ℤ x else v) ≡ v +ℤ (if b then x else pos 0)
at_moved true v x = refl
at_moved false v x = sym (+ℤ_zero v)

moved-Changed :
    (a : String) (x : ℤ) (l l' : Ledger)
    → ((j : String) → MovedBy a x j l l')
    → Changed (at a x) x (pos 0) l l'
moved-Changed a x l l' m = record {
  balance = λ j. (m j).1 ∙ at_moved (str_eq a j) (get_balance j l) x;
  sum = (m a).0;
  burned = (m a).3 ∙ sym (+ℤ_zero l.total_burned);
  minted = (m a).2;
  active = (m a).4;
  distinct = (m a).5;
}

pub credit-Changed :
    (a : String) (x : ℤ) (l : Ledger)
    → Distinct l.balances
    → pos 0 ≤ℤ x
    → Outcome (λ _ l'. Changed (at a x) x (pos 0) l l') (λ e l'. ⊥) (credit a x l)
credit-Changed a x l u h =
    rw (credit_returns a a x l u h).0
      (moved-Changed a x l (credit a x l).1 (λ j. (credit_returns a j x l u h).1))

Outcome-all :
    {E S A : Type 0} (P : String → A → S → Type 0) (Q : E → S → Type 0) (r : Result E A × S)
    → ((j : String) → Outcome (P j) Q r)
    → Outcome (λ a s. (j : String) → P j a s) Q r
Outcome-all P Q (ok a, s) o = o
Outcome-all P Q (err e, s) o = o ""

minus_nonneg : (x : ℤ) → pos 0 ≤ℤ x → (if leb_ℤ x (pos 0) then pos 0 else pos 0 -ℤ x) ≡ pos 0 -ℤ x
minus_nonneg x h = elim (Bool-cases (leb_ℤ x (pos 0))) [
  | inl low ↦ rw low (omega (int_laws, h, leb_ℤ→le x (pos 0) low))
  | inr high ↦ rw high refl
]

-- A debit that returns takes an amount of zero or more; one that raises changes nothing.
pub debit-Changed :
    (a : String) (x : ℤ) (l : Ledger)
    → Distinct l.balances
    → Outcome
        (λ _ l'. (pos 0 ≤ℤ x) × Changed (at a (pos 0 -ℤ x)) (pos 0 -ℤ x) (pos 0) l l')
        (λ e l'. Unit {0})
        (debit a x l)
debit-Changed a x l u =
    Outcome-weaken _ _ _ (debit a x l)
      (Outcome-all (λ j _ l'. (pos 0 ≤ℤ x) × MovedBy a (pos 0 -ℤ x) j l l') (λ e l'. Unit {0})
        (debit a x l)
        (λ j. Outcome-weaken _ _ _ (debit a x l) (debit-MovedBy a j x l u) (λ _ l' m. (m.0, m.2))))
      (λ _ l' m. ((m a).0, moved-Changed a (pos 0 -ℤ x) l l' (λ j. (m j).1)))

pub rollback_debit-Changed :
    (a : String) (x : ℤ) (l : Ledger)
    → Distinct l.balances
    → pos 0 ≤ℤ x
    → Changed (at a (pos 0 -ℤ x)) (pos 0 -ℤ x) (pos 0) l (rollback_debit a x l)
rollback_debit-Changed a x l u h = moved-Changed a (pos 0 -ℤ x) l (rollback_debit a x l) (λ j.
    subst (λ y. MovedBy a y j l (rollback_debit a x l)) (minus_nonneg x h)
      (rollback_debit-MovedBy a j x l u))

-- The same change under another name.
pub Changed-eq :
    (d e : String → ℤ) (x z y w : ℤ) (l l' : Ledger)
    → Changed d x y l l'
    → ((j : String) → d j ≡ e j)
    → x ≡ z
    → y ≡ w
    → Changed e z w l l'
Changed-eq d e x z y w l l' c de xz yw = record {
  balance = λ j. rw (sym (de j)) (c.balance j);
  sum = rw (sym xz) c.sum;
  burned = rw (sym yw) c.burned;
  minted = c.minted;
  active = c.active;
  distinct = c.distinct;
}

-- A ledger method that returns, with the change it makes.
abbrev pub Changes : {A : Type 0} → (String → ℤ) → ℤ → ℤ → Ledger → Result Error A × Ledger → Type 0
Changes d x y l r = Outcome (λ _ l'. Changed d x y l l') (λ e l'. ⊥) r

-- A ledger method that makes the change if it returns.
abbrev pub MayChange :
    {A : Type 0} → (String → ℤ) → ℤ → ℤ → Ledger → Result Error A × Ledger → Type 0
MayChange d x y l r = Outcome (λ _ l'. Changed d x y l l') (λ e l'. Unit {0}) r
