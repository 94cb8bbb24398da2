-- ===== src/Tokens/Totals.antt =====
-- What a change of one token balance (core/blockchain.py) does to the sum of the balances of a
-- token.
use qbit_network.Common.{
  String, Bool, true, false, [], ◌∷◌, if◌then◌else◌, str_eq, ◌≡◌, refl, sym, ap, ◌∙◌, inl, inr,
  Bool-cases,
}
use qbit_network.Common.Int.{ℤ, pos, ◌+ℤ◌, ◌-ℤ◌, int_laws, ltb_ℤ, eqb_ℤ, eqb_ℤ→eq, +ℤ_zero}
use qbit_network.Common.Dict.{lookup, put, pop, get_or, string_eq, pair_eq}
use qbit_network.Tokens.{
  TokenBalances, Tokens, token_balance, set_token_balance, drop_token_balance, update_token_index,
  credit_token, debit_token,
}

-- The sum of the balances of a token.
abbrev pub token_total : String → TokenBalances → ℤ
token_total j [] = pos 0
token_total j ((k, x) ∷ d) = (if str_eq k.0 j then x else pos 0) +ℤ token_total j d

swap : (a b : ℤ) → b +ℤ a ≡ a +ℤ b
swap a b = omega int_laws

assoc : (a b c : ℤ) → a +ℤ b +ℤ c ≡ a +ℤ (b +ℤ c)
assoc a b c = omega int_laws

under : (a b c d e : ℤ) → b +ℤ c ≡ d +ℤ e → a +ℤ b +ℤ c ≡ a +ℤ d +ℤ e
under a b c d e h = assoc a b c ∙ ap (λ z. a +ℤ z) h ∙ sym (assoc a d e)

exchange :
    (b : Bool) (v w x : ℤ)
    → (if b then v else pos 0) +ℤ x +ℤ (if b then w else pos 0)
      ≡ (if b then w else pos 0) +ℤ x +ℤ (if b then v else pos 0)
exchange true v w x = omega int_laws
exchange false v w x = refl

fresh :
    (b : Bool) (v : ℤ)
    → (if b then v else pos 0) +ℤ pos 0 +ℤ (if b then pos 0 else pos 0)
      ≡ pos 0 +ℤ (if b then v else pos 0)
fresh true v = omega int_laws
fresh false v = omega int_laws

nothing : (b : Bool) → pos 0 +ℤ (if b then pos 0 else pos 0) ≡ pos 0
nothing true = omega int_laws
nothing false = omega int_laws

token_total-put :
    (j tid address : String) (v : ℤ) (d : TokenBalances)
    → token_total j (put (tid, address) v d)
        +ℤ (if str_eq tid j then get_or (tid, address) (pos 0) d else pos 0)
      ≡ token_total j d +ℤ (if str_eq tid j then v else pos 0)
unfolding put lookup
token_total-put j tid address v [] = fresh (str_eq tid j) v
token_total-put j tid address v ((k, w) ∷ d) = elim (Bool-cases (pair_eq.beq k (tid, address))) [
  | inl same ↦
      rw (same, (pair_eq.beq_iff k (tid, address)).0 same)
        (exchange (str_eq tid j) v w (token_total j d))
  | inr other ↦
      rw other
        (under (if str_eq k.0 j then w else pos 0) _ _ _ _ (token_total-put j tid address v d))
]

token_total-pop :
    (j tid address : String) (d : TokenBalances)
    → token_total j (pop (tid, address) d)
        +ℤ (if str_eq tid j then get_or (tid, address) (pos 0) d else pos 0)
      ≡ token_total j d
unfolding pop lookup
token_total-pop j tid address [] = nothing (str_eq tid j)
token_total-pop j tid address ((k, w) ∷ d) = elim (Bool-cases (pair_eq.beq k (tid, address))) [
  | inl same ↦
      rw (same, (pair_eq.beq_iff k (tid, address)).0 same)
        (swap (if str_eq tid j then w else pos 0) (token_total j d))
  | inr other ↦ rw other (
      assoc (if str_eq k.0 j then w else pos 0) _ _
      ∙ ap (λ z. (if str_eq k.0 j then w else pos 0) +ℤ z) (token_total-pop j tid address d))
]

-- The index holds no balance.
update_token_index_balances :
    (tid address : String) (x : ℤ) (t : Tokens)
    → ((update_token_index tid address x t).balances ≡ t.balances)
      × ((update_token_index tid address x t).registry ≡ t.registry)
unfolding update_token_index
update_token_index_balances tid address x t = elim (Bool-cases (ltb_ℤ (pos 0) x)) [
  | inl h ↦ rw h (refl, refl)
  | inr h ↦ rw h (refl, refl)
]

cancelled : (a c : ℤ) → a ≡ a +ℤ c -ℤ c
cancelled a c = omega int_laws

cancel_right : (a b c : ℤ) → a +ℤ c ≡ b +ℤ c → a ≡ b
cancel_right a b c h = cancelled a c ∙ ap (λ z. z -ℤ c) h ∙ sym (cancelled b c)

gained :
    (b : Bool) (t g x : ℤ)
    → t +ℤ (if b then g +ℤ x else pos 0) ≡ t +ℤ (if b then x else pos 0) +ℤ (if b then g else pos 0)
gained true t g x = omega int_laws
gained false t g x = omega int_laws

-- A credit adds to the total of its token.
pub credit_token_total :
    (j tid address : String) (x : ℤ) (t : Tokens)
    → (token_total j (credit_token tid address x t).balances
        ≡ token_total j t.balances +ℤ (if str_eq tid j then x else pos 0))
      × ((credit_token tid address x t).registry ≡ t.registry)
unfolding credit_token
credit_token_total j tid address x t =
    let g = token_balance tid address t in
    let index =
      update_token_index_balances tid address (g +ℤ x) (set_token_balance tid address (g +ℤ x) t) in
    (
      rw index.0 (
          cancel_right _ _ (if str_eq tid j then g else pos 0) (
            token_total-put j tid address (g +ℤ x) t.balances
            ∙ gained (str_eq tid j) (token_total j t.balances) g x)),
      index.1,
    )

lost :
    (b : Bool) (t g x : ℤ)
    → t +ℤ (if b then g -ℤ x else pos 0) ≡ t -ℤ (if b then x else pos 0) +ℤ (if b then g else pos 0)
lost true t g x = omega int_laws
lost false t g x = omega int_laws

regroup : (t g x : ℤ) → t +ℤ (g -ℤ x) ≡ t -ℤ x +ℤ g
regroup t g x = omega int_laws

emptied :
    (b : Bool) (t g x : ℤ)
    → g -ℤ x ≡ pos 0
    → t ≡ t -ℤ (if b then x else pos 0) +ℤ (if b then g else pos 0)
emptied true t g x h = sym (+ℤ_zero t) ∙ ap (λ z. t +ℤ z) (sym h) ∙ regroup t g x
emptied false t g x h = omega int_laws

-- A debit takes from it.
pub debit_token_total :
    (j tid address : String) (x : ℤ) (t : Tokens)
    → (token_total j (debit_token tid address x t).balances
        ≡ token_total j t.balances -ℤ (if str_eq tid j then x else pos 0))
      × ((debit_token tid address x t).registry ≡ t.registry)
unfolding debit_token
debit_token_total j tid address x t =
    let g = token_balance tid address t in
    elim (Bool-cases (eqb_ℤ (g -ℤ x) (pos 0))) [
      | inl spent ↦
          let index =
            update_token_index_balances tid address (g -ℤ x) (drop_token_balance tid address t) in
          rw spent (
            rw index.0 (
                cancel_right _ _ (if str_eq tid j then g else pos 0) (
                  token_total-pop j tid address t.balances
                  ∙ emptied (str_eq tid j) (token_total j t.balances) g x
                      (eqb_ℤ→eq (g -ℤ x) (pos 0) spent))),
            index.1,
          )
      | inr left ↦
          let index =
            update_token_index_balances tid address (g -ℤ x)
              (set_token_balance tid address (g -ℤ x) t) in
          rw left (
            rw index.0 (
                cancel_right _ _ (if str_eq tid j then g else pos 0) (
                  token_total-put j tid address (g -ℤ x) t.balances
                  ∙ lost (str_eq tid j) (token_total j t.balances) g x)),
            index.1,
          )
    ]
