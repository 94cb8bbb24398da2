-- ===== src/Tokens.antt =====
-- User tokens: the ISSUE_TOKEN, MINT_TOKEN and TRANSFER_TOKEN branches of `_append_block_inner` and
-- `_update_token_index` (qbit_network/core/blockchain.py). `_store` is None. The identifier of a
-- token, a cut SHA3-256 digest of issuer, symbol and nonce, is a parameter. The payload is one
-- that validate_payload let pass: a missing key reads as 0 or "".
pub mod Rollback
pub mod Totals
pub mod Backing
mod Examples
use qbit_network.Common.{
  ℕ, String, Bool, true, false, not, ◌&&◌, List, [], ◌∷◌, Option, none, some, leb, if◌then◌else◌,
  str_eq,
}
use qbit_network.Common.Int.{ℤ, pos, ◌+ℤ◌, ◌-ℤ◌, ltb_ℤ, eqb_ℤ}
use qbit_network.Common.Dict.{Dict, lookup, put, pop, get_or, contains, string_eq, pair_eq}
use qbit_network.Common.Exec.{Exec, ok, err}
use qbit_network.Config.{max_tx_amount, token_activation_height}
use qbit_network.Ledger.{Error}
use qbit_network.Staking.{add_member, discard}
use qbit_network.Transaction.{Transaction, Value, amount, get_int, get_text}

-- An entry of `_token_registry`.
pub record Token : Type 0 where
  pub issuer : String
  pub name : String
  pub symbol : String
  pub decimals : ℤ
  pub max_supply : ℤ
  pub total_minted : ℤ
  pub transferable : Bool
  pub created_block : ℕ
  pub created_tx : String

-- (token_id, address) -> amount
abbrev pub TokenBalances : Type 0
TokenBalances = Dict (String × String) ℤ

pub record Tokens : Type 0 where
  pub registry : Dict String Token
  pub balances : TokenBalances
  pub by_symbol : Dict String String
  pub holders_by_token : Dict String (List String)
  pub tokens_by_address : Dict String (List String)

-- `tx.payload.get("transferable", True)`, which validate_payload keeps to a bool.
abbrev flag : Option Value → Bool
flag (some (Value.bool b)) = b
flag _ = true

-- `d.setdefault(k, set()).add(x)`
unfoldable pub add_to : String → String → Dict String (List String) → Dict String (List String)
add_to k x d = put k (add_member x (get_or k [] d)) d

abbrev shrink : String → List String → Dict String (List String) → Dict String (List String)
shrink k [] d = pop k d
shrink k (x ∷ l) d = put k (x ∷ l) d

-- Discards `x` from the set of `k`, and the set when it is empty.
unfoldable pub remove_from : String → String → Dict String (List String) → Dict String (List String)
remove_from k x d = elim (lookup k d) [ none ↦ d | some l ↦ shrink k (discard x l) d ]

-- `_update_token_index`
unfoldable pub update_token_index : String → String → ℤ → Tokens → Tokens
update_token_index token_id address new_balance t =
    if ltb_ℤ (pos 0) new_balance
    then record t {
      holders_by_token = add_to token_id address t.holders_by_token;
      tokens_by_address = add_to address token_id t.tokens_by_address;
    }
    else record t {
      holders_by_token = remove_from token_id address t.holders_by_token;
      tokens_by_address = remove_from address token_id t.tokens_by_address;
    }

abbrev pub token_balance : String → String → Tokens → ℤ
token_balance token_id address t = get_or (token_id, address) (pos 0) t.balances

abbrev pub set_token_balance : String → String → ℤ → Tokens → Tokens
set_token_balance token_id address x t = record t {
  balances = put (token_id, address) x t.balances;
}

abbrev pub drop_token_balance : String → String → Tokens → Tokens
drop_token_balance token_id address t = record t { balances = pop (token_id, address) t.balances }

-- A change of the balance, and of the index to match.
unfoldable pub credit_token : String → String → ℤ → Tokens → Tokens
unfolding update_token_index
credit_token token_id address x t =
    let new_balance = token_balance token_id address t +ℤ x in
    update_token_index token_id address new_balance
      (set_token_balance token_id address new_balance t)

-- What TRANSFER_TOKEN does to its sender, whose balance covers the amount.
unfoldable pub debit_token : String → String → ℤ → Tokens → Tokens
unfolding update_token_index
debit_token token_id address x t =
    let new_balance = token_balance token_id address t -ℤ x in
    update_token_index token_id address new_balance (
      if eqb_ℤ new_balance (pos 0)
      then drop_token_balance token_id address t
      else set_token_balance token_id address new_balance t)

module _ (token_id_of : String → String → ℤ → String) where
  -- ISSUE_TOKEN in block `idx`.
  unfoldable pub issue_token : ℕ → Transaction → Exec Error Tokens (Unit {0})
  issue_token idx tx t =
      let symbol = get_text "symbol" tx in
      let token_id = token_id_of tx.sender symbol tx.nonce in
      if not (leb token_activation_height idx)
      then (ok tt, t)
      else if contains symbol t.by_symbol
      then (err Error.symbol_exists, t)
      else if contains token_id t.registry
      then (err Error.token_id_collision, t)
      else (
        ok tt,
        record t {
          registry =
              put token_id
                (record {
                  issuer = tx.sender;
                  name = get_text "name" tx;
                  symbol = symbol;
                  decimals = get_int "decimals" tx;
                  max_supply = get_int "max_supply" tx;
                  total_minted = pos 0;
                  transferable = flag (lookup "transferable" tx.payload);
                  created_block = idx;
                  created_tx = tx.tx_id;
                })
                t.registry;
          by_symbol = put symbol token_id t.by_symbol;
        },
      )

-- `reg["total_minted"] += amount`
abbrev pub count_minted : String → Token → ℤ → Tokens → Tokens
count_minted tid reg x t = record t {
  registry = put tid (record reg { total_minted = reg.total_minted +ℤ x }) t.registry;
}

-- MINT_TOKEN of a registered token.
unfoldable pub mint_registered : String → Token → Transaction → Exec Error Tokens (Unit {0})
mint_registered tid reg tx t =
    let minted = reg.total_minted +ℤ amount tx in
    if not (str_eq reg.issuer tx.sender)
    then (err Error.not_issuer, t)
    else if ltb_ℤ (pos max_tx_amount) minted
    then (err Error.mint_overflow, t)
    else if ltb_ℤ (pos 0) reg.max_supply && ltb_ℤ reg.max_supply minted
    then (err Error.exceeds_max_supply, t)
    else (ok tt, credit_token tid tx.recipient (amount tx) (count_minted tid reg (amount tx) t))

-- MINT_TOKEN in block `idx`.
unfoldable pub mint_token : ℕ → Transaction → Exec Error Tokens (Unit {0})
mint_token idx tx t =
    let tid = get_text "token_id" tx in
    if not (leb token_activation_height idx) then (ok tt, t) else elim (lookup tid t.registry) [
      | none ↦ (err Error.no_such_token, t)
      | some reg ↦ mint_registered tid reg tx t
    ]

-- TRANSFER_TOKEN of a registered token.
unfoldable pub transfer_registered : String → Token → Transaction → Exec Error Tokens (Unit {0})
transfer_registered tid reg tx t =
    if not reg.transferable
    then (err Error.not_transferable, t)
    else if ltb_ℤ (token_balance tid tx.sender t) (amount tx)
    then (err Error.insufficient_token_balance, t)
    else (
      ok tt,
      credit_token tid tx.recipient (amount tx) (debit_token tid tx.sender (amount tx) t),
    )

-- TRANSFER_TOKEN in block `idx`.
unfoldable pub transfer_token : ℕ → Transaction → Exec Error Tokens (Unit {0})
transfer_token idx tx t =
    let tid = get_text "token_id" tx in
    if not (leb token_activation_height idx) then (ok tt, t) else elim (lookup tid t.registry) [
      | none ↦ (err Error.no_such_token, t)
      | some reg ↦ transfer_registered tid reg tx t
    ]
