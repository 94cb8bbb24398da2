-- ===== src/Ledger/Moves.antt =====
-- How the ledger methods of core/ledger.py move balances: by exactly the amount, at the address
-- alone, or not at all.
use qbit_network.Common.{
  Bool-cases, String, Bool, true, false, ◌≡◌, ◌⊎◌, inl, inr, refl, arith, str_eq, eq_iff,
  if◌then◌else◌,
}
use qbit_network.Common.Int.{
  ℤ, pos, ◌+ℤ◌, ◌-ℤ◌, ◌≤ℤ◌, ◌<ℤ◌, int_laws, ltb_ℤ, leb_ℤ, eqb_ℤ, ltb_ℤ→lt, ltb_ℤ→le, eqb_ℤ→eq,
  leb_ℤ→le, +ℤ_zero,
}
use qbit_network.Common.Dict.{
  Distinct, total, string_eq, lookup-put, lookup-pop, total-put, total-pop, put-Distinct,
  pop-Distinct,
}
use qbit_network.Common.Exec.{ok, Outcome, Outcome-ok}
use qbit_network.Ledger.{
  set_balance, drop_balance, Ledger, get_balance, credit, debit, rollback_debit,
}

-- The balances after a change by `x` at address `a`, seen at address `j`.
abbrev pub MovedBy : String → ℤ → String → Ledger → Ledger → Type 0
MovedBy a x j l l' =
    (total l'.balances ≡ total l.balances +ℤ x)
    × (get_balance j l' ≡ (if str_eq a j then get_balance j l +ℤ x else get_balance j l))
    × (l'.total_minted ≡ l.total_minted)
    × (l'.total_burned ≡ l.total_burned)
    × (l'.financial_active ≡ l.financial_active)
    × Distinct l'.balances

if_same {ℓ} : {A : Type ℓ} (b : Bool) (v : A) → v ≡ (if b then v else v)
if_same true v = refl
if_same false v = refl

positive : (x : ℤ) → ltb_ℤ x (pos 0) ≡ false → eqb_ℤ x (pos 0) ≡ false → pos 0 <ℤ x
positive x n z = ground arith

negated_zero : (x : ℤ) → x ≡ pos 0 → pos 0 -ℤ x ≡ pos 0
negated_zero x e = rw e (omega int_laws)

module _ (a j : String) (x : ℤ) (l : Ledger) (u : Distinct l.balances) where
  set_balance-MovedBy : (v : ℤ) → v ≡ get_balance a l +ℤ x → MovedBy a x j l (set_balance a v l)
  unfolding get_balance
  set_balance-MovedBy v e = grind (
    int_laws,
    eq_iff a j,
    lookup-put j a v l.balances,
    total-put a v l.balances,
    put-Distinct a v l.balances u,
  )

  drop_balance-MovedBy : get_balance a l +ℤ x ≡ pos 0 → MovedBy a x j l (drop_balance a l)
  unfolding get_balance
  drop_balance-MovedBy e = grind (
    int_laws,
    eq_iff a j,
    lookup-pop j a l.balances u,
    total-pop a l.balances,
    pop-Distinct a l.balances u,
  )

  unmoved : x ≡ pos 0 → MovedBy a x j l l
  unmoved e =
      rw (e, +ℤ_zero, +ℤ_zero) (refl, if_same (str_eq a j) (get_balance j l), refl, refl, refl, u)

-- With no address listed twice: a credit of zero or more adds the amount to the address and to the sum of balances, changes no
-- other address and no other field; a credit of less raises and changes nothing.
pub credit-MovedBy :
    (a j : String) (x : ℤ) (l : Ledger)
    → Distinct l.balances
    → Outcome
        (λ _ l'. (pos 0 ≤ℤ x) × MovedBy a x j l l')
        (λ e l'. (x <ℤ pos 0) × (l' ≡ l))
        (credit a x l)
unfolding credit
credit-MovedBy a j x l u = elim (Bool-cases (ltb_ℤ x (pos 0))) [
  | inl neg ↦ rw neg (ltb_ℤ→lt x (pos 0) neg, refl)
  | inr nonneg ↦ elim (Bool-cases (eqb_ℤ x (pos 0))) [
    | inl z ↦ rw (nonneg, z) (ltb_ℤ→le x (pos 0) nonneg, unmoved a j x l u (eqb_ℤ→eq x (pos 0) z))
    | inr nz ↦
        rw (nonneg, nz)
          (ltb_ℤ→le x (pos 0) nonneg, set_balance-MovedBy a j x l u (get_balance a l +ℤ x) refl)
  ]
]

-- With no address listed twice: a debit succeeds exactly when the amount is zero, or positive and covered by the balance; it then
-- takes the amount from the address and from the sum of balances and changes no other address and
-- no other field. Otherwise it raises and changes nothing.
pub debit-MovedBy :
    (a j : String) (x : ℤ) (l : Ledger)
    → Distinct l.balances
    → Outcome
        (λ _ l'.
          (pos 0 ≤ℤ x) × ((x ≡ pos 0) ⊎ (x ≤ℤ get_balance a l)) × MovedBy a (pos 0 -ℤ x) j l l')
        (λ e l'. ((x <ℤ pos 0) ⊎ ((pos 0 <ℤ x) × (get_balance a l <ℤ x))) × (l' ≡ l))
        (debit a x l)
unfolding debit
debit-MovedBy a j x l u =
    let back : get_balance a l -ℤ x ≡ get_balance a l +ℤ (pos 0 -ℤ x) = omega int_laws in
    elim (Bool-cases (ltb_ℤ x (pos 0))) [
      | inl neg ↦ rw neg (inl (ltb_ℤ→lt x (pos 0) neg), refl)
      | inr nonneg ↦
          let x_nonneg = ltb_ℤ→le x (pos 0) nonneg in
          elim (Bool-cases (eqb_ℤ x (pos 0))) [
            | inl z ↦
                let x_zero = eqb_ℤ→eq x (pos 0) z in
                rw (nonneg, z)
                  (x_nonneg, inl x_zero, unmoved a j (pos 0 -ℤ x) l u (negated_zero x x_zero))
            | inr nz ↦ elim (Bool-cases (ltb_ℤ (get_balance a l) x)) [
              | inl short ↦
                  rw (nonneg, nz, short)
                    (inr (positive x nonneg nz, ltb_ℤ→lt (get_balance a l) x short), refl)
              | inr covered ↦
                  let enough = inr (ltb_ℤ→le (get_balance a l) x covered) in
                  elim (Bool-cases (eqb_ℤ (get_balance a l -ℤ x) (pos 0))) [
                    | inl spent ↦
                        rw (nonneg, nz, covered, spent)
                          (
                            x_nonneg,
                            enough,
                            drop_balance-MovedBy a j (pos 0 -ℤ x) l u
                                (cc (back, eqb_ℤ→eq (get_balance a l -ℤ x) (pos 0) spent)),
                          )
                    | inr left ↦
                        rw (nonneg, nz, covered, left)
                          (
                            x_nonneg,
                            enough,
                            set_balance-MovedBy a j (pos 0 -ℤ x) l u (get_balance a l -ℤ x) back,
                          )
                  ]
            ]
          ]
    ]

-- With no address listed twice: a rollback debit of a positive amount takes it, whatever the balance, which may become negative;
-- any other amount changes nothing.
pub rollback_debit-MovedBy :
    (a j : String) (x : ℤ) (l : Ledger)
    → Distinct l.balances
    → MovedBy a (if leb_ℤ x (pos 0) then pos 0 else pos 0 -ℤ x) j l (rollback_debit a x l)
unfolding rollback_debit
rollback_debit-MovedBy a j x l u =
    let back : get_balance a l -ℤ x ≡ get_balance a l +ℤ (pos 0 -ℤ x) = omega int_laws in
    elim (Bool-cases (leb_ℤ x (pos 0))) [
      | inl none ↦ rw none (unmoved a j (pos 0) l u refl)
      | inr some ↦ elim (Bool-cases (eqb_ℤ (get_balance a l -ℤ x) (pos 0))) [
        | inl spent ↦
            rw (some, spent)
              (drop_balance-MovedBy a j (pos 0 -ℤ x) l u
                (cc (back, eqb_ℤ→eq (get_balance a l -ℤ x) (pos 0) spent)))
        | inr left ↦
            rw (some, left) (set_balance-MovedBy a j (pos 0 -ℤ x) l u (get_balance a l -ℤ x) back)
      ]
    ]

-- With no address listed twice, a credit of zero or more returns.
pub credit_returns :
    (a j : String) (x : ℤ) (l : Ledger)
    → Distinct l.balances
    → pos 0 ≤ℤ x
    → ((credit a x l).0 ≡ ok tt) × MovedBy a x j l (credit a x l).1
credit_returns a j x l u h =
    let r = Outcome-ok _ _ (credit a x l) (credit-MovedBy a j x l u) (λ e s n. omega arith) in
    (r.1, r.2.1)

cancelled :
    (x : ℤ) → pos 0 ≤ℤ x → (b : ℤ) → b +ℤ x +ℤ (if leb_ℤ x (pos 0) then pos 0 else pos 0 -ℤ x) ≡ b
cancelled x h b = elim (Bool-cases (leb_ℤ x (pos 0))) [
  | inl low ↦ rw low (omega (int_laws, leb_ℤ→le x (pos 0) low))
  | inr high ↦ rw high (omega int_laws)
]

-- With no address listed twice, the rollback of a credit of zero or more restores every balance and the sum of balances.
pub rollback_debit-credit :
    (a j : String) (x : ℤ) (l : Ledger)
    → Distinct l.balances
    → pos 0 ≤ℤ x
    → let (r, l') = credit a x l in
      (r ≡ ok tt)
      × (get_balance j (rollback_debit a x l') ≡ get_balance j l)
      × (total (rollback_debit a x l').balances ≡ total l.balances)
rollback_debit-credit a j x l u h =
    let (returns, there) = credit_returns a j x l u h in
    let back = rollback_debit-MovedBy a j x (credit a x l).1 there.5 in
    let cancel = cancelled x h in
    (
      returns,
      elim (Bool-cases (str_eq a j)) [
        | inl self ↦ cc (self, there.1, back.1, cancel (get_balance j l))
        | inr other ↦ cc (other, there.1, back.1)
      ],
      cc (there.0, back.0, cancel (total l.balances)),
    )
