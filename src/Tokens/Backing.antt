-- ===== src/Tokens/Backing.antt =====
-- The balances of a token against its minted total (core/blockchain.py).
use qbit_network.Common.{
  ℕ, String, Bool, true, false, not, ◌&&◌, Option, none, some, if◌then◌else◌, str_eq, ◌≡◌, refl,
  sym, ap, ◌∙◌, inl, inr, Bool-cases, eq_iff, leb,
}
use qbit_network.Common.Int.{ℤ, pos, ◌+ℤ◌, ◌-ℤ◌, int_laws, ltb_ℤ, +ℤ_zero}
use qbit_network.Common.Dict.{lookup, contains, is_some, string_eq, pair_eq, lookup-put}
use qbit_network.Common.Exec.{Result, ok, err}
use qbit_network.Config.{token_activation_height, max_tx_amount}
use qbit_network.Ledger.{Error}
use qbit_network.Transaction.{Transaction, amount, get_text}
use qbit_network.Tokens.{
  Token, Tokens, token_balance, credit_token, debit_token, issue_token, count_minted,
  mint_registered, mint_token, transfer_registered, transfer_token,
}
use qbit_network.Tokens.Totals.{token_total, credit_token_total, debit_token_total}

abbrev pub minted_of : Option Token → ℤ
minted_of none = pos 0
minted_of (some reg) = reg.total_minted

-- What is held of a token is what was minted of it; nothing is held of an unknown one.
abbrev pub IsBacked : String → Tokens → Type 0
IsBacked j t = token_total j t.balances ≡ minted_of (lookup j t.registry)

counted :
    (j tid : String) (x : ℤ) (reg : Token) (t : Tokens)
    → lookup tid t.registry ≡ some reg
    → minted_of (lookup j (count_minted tid reg x t).registry)
      ≡ minted_of (lookup j t.registry) +ℤ (if str_eq tid j then x else pos 0)
counted j tid x reg t found =
    let entry = record reg { total_minted = reg.total_minted +ℤ x } in
    rw (lookup-put j tid entry t.registry) (elim (Bool-cases (str_eq tid j)) [
      | inl same ↦ rw (same, sym ((eq_iff tid j).0 same), found) refl
      | inr other ↦ rw other (sym (+ℤ_zero (minted_of (lookup j t.registry))))
    ])

back_again : (a b : ℤ) → a -ℤ b +ℤ b ≡ a
back_again a b = omega int_laws

-- Up to three checks that may raise, and then the change.
after_checks :
    {E : Type 0} (e1 e2 e3 : E) (a b c : Bool) (j : String) (t : Tokens)
    → IsBacked j t
    → (t' : Tokens) → IsBacked j t'
    → IsBacked j (
        let r : Result E (Unit {0}) × Tokens =
          if a
          then (err e1, t)
          else if b
          then (err e2, t)
          else if c
          then (err e3, t)
          else (ok tt, t') in
        r.1)
after_checks e1 e2 e3 true b c j t h t' h' = h
after_checks e1 e2 e3 false true c j t h t' h' = h
after_checks e1 e2 e3 false false true j t h t' h' = h
after_checks e1 e2 e3 false false false j t h t' h' = h'

after_two :
    (e1 e2 : Error) (a b : Bool) (j : String) (t : Tokens)
    → IsBacked j t
    → (t' : Tokens) → (b ≡ false → IsBacked j t')
    → IsBacked j (
        let r : Result Error (Unit {0}) × Tokens =
          if a then (err e1, t) else if b then (err e2, t) else (ok tt, t') in
        r.1)
after_two e1 e2 true b j t h t' h' = h
after_two e1 e2 false true j t h t' h' = h
after_two e1 e2 false false j t h t' h' = h' refl

-- Before the activation height, nothing.
once_active :
    (inactive : Bool) (j : String) (t : Tokens) (r : Result Error (Unit {0}) × Tokens)
    → IsBacked j t
    → IsBacked j r.1
    → IsBacked j
        (let s : Result Error (Unit {0}) × Tokens = if inactive then (ok tt, t) else r in s.1)
once_active true j t r h h' = h
once_active false j t r h h' = h'

mint_registered-IsBacked :
    (j tid : String) (reg : Token) (tx : Transaction) (t : Tokens)
    → lookup tid t.registry ≡ some reg
    → IsBacked j t
    → IsBacked j (mint_registered tid reg tx t).1
unfolding mint_registered
mint_registered-IsBacked j tid reg tx t found h =
    let minted = reg.total_minted +ℤ amount tx in
    let t1 = count_minted tid reg (amount tx) t in
    let c = credit_token_total j tid tx.recipient (amount tx) t1 in
    let done : IsBacked j (credit_token tid tx.recipient (amount tx) t1) =
      rw (c.0, c.1, counted j tid (amount tx) reg t found)
        (ap (λ z. z +ℤ (if str_eq tid j then amount tx else pos 0)) h) in
    after_checks Error.not_issuer Error.mint_overflow Error.exceeds_max_supply
      (not (str_eq reg.issuer tx.sender)) (ltb_ℤ (pos max_tx_amount) minted)
      (ltb_ℤ (pos 0) reg.max_supply && ltb_ℤ reg.max_supply minted) j t h _ done

transfer_registered-IsBacked :
    (j tid : String) (reg : Token) (tx : Transaction) (t : Tokens)
    → IsBacked j t
    → IsBacked j (transfer_registered tid reg tx t).1
unfolding transfer_registered
transfer_registered-IsBacked j tid reg tx t h =
    let t1 = debit_token tid tx.sender (amount tx) t in
    let d = debit_token_total j tid tx.sender (amount tx) t in
    let c = credit_token_total j tid tx.recipient (amount tx) t1 in
    let x = if str_eq tid j then amount tx else pos 0 in
    let done : IsBacked j (credit_token tid tx.recipient (amount tx) t1) =
      rw (c.0, c.1, d.0, d.1) (back_again (token_total j t.balances) x ∙ h) in
    after_two Error.not_transferable Error.insufficient_token_balance (not reg.transferable)
      (ltb_ℤ (token_balance tid tx.sender t) (amount tx)) j t h _ (λ _. done)

none_minted : (o : Option Token) → is_some o ≡ false → minted_of o ≡ pos 0
none_minted none h = refl
none_minted (some reg) h = cc

if_minted :
    (b : Bool) (o : Option Token) (reg : Token)
    → (b ≡ true → minted_of o ≡ reg.total_minted)
    → minted_of o ≡ minted_of (if b then some reg else o)
if_minted true o reg h = h refl
if_minted false o reg h = refl

module _ (j : String) (idx : ℕ) (tx : Transaction) (t : Tokens) (backed : IsBacked j t) where
  mint_found :
      (o : Option Token)
      → lookup (get_text "token_id" tx) t.registry ≡ o
      → IsBacked j (
          let r : Result Error (Unit {0}) × Tokens = elim o [
            | none ↦ (err Error.no_such_token, t)
            | some reg ↦ mint_registered (get_text "token_id" tx) reg tx t
          ] in
          r.1)
  mint_found none e = backed
  mint_found (some reg) e = mint_registered-IsBacked j (get_text "token_id" tx) reg tx t e backed

  transfer_found :
      (o : Option Token)
      → IsBacked j (
          let r : Result Error (Unit {0}) × Tokens = elim o [
            | none ↦ (err Error.no_such_token, t)
            | some reg ↦ transfer_registered (get_text "token_id" tx) reg tx t
          ] in
          r.1)
  transfer_found none = backed
  transfer_found (some reg) =
      transfer_registered-IsBacked j (get_text "token_id" tx) reg tx t backed

  -- MINT_TOKEN keeps a backed token backed, whether it returns or raises.
  pub mint_token-IsBacked : IsBacked j (mint_token idx tx t).1
  unfolding mint_token
  mint_token-IsBacked =
      once_active (not (leb token_activation_height idx)) j t _ backed
        (mint_found (lookup (get_text "token_id" tx) t.registry) refl)

  -- TRANSFER_TOKEN keeps a backed token backed, whether it returns or raises.
  pub transfer_token-IsBacked : IsBacked j (transfer_token idx tx t).1
  unfolding transfer_token
  transfer_token-IsBacked =
      once_active (not (leb token_activation_height idx)) j t _ backed
        (transfer_found (lookup (get_text "token_id" tx) t.registry))

  -- ISSUE_TOKEN keeps a backed token backed, whether it returns or raises.
  pub issue_token-IsBacked :
      (token_id_of : String → String → ℤ → String) → IsBacked j (issue_token token_id_of idx tx t).1
  unfolding issue_token
  issue_token-IsBacked token_id_of =
      let id = token_id_of tx.sender (get_text "symbol" tx) tx.nonce in
      once_active (not (leb token_activation_height idx)) j t _ backed (
        after_two Error.symbol_exists Error.token_id_collision
          (contains (get_text "symbol" tx) t.by_symbol) (contains id t.registry) j t backed _
          (λ fresh. rw (lookup-put j id _ t.registry) (
            backed
            ∙ if_minted (str_eq id j) (lookup j t.registry) _ (λ same.
              rw (sym ((eq_iff id j).0 same)) (none_minted (lookup id t.registry) fresh)))))
