-- ===== src/Tokens/Rollback.antt =====
-- The reversal of token transactions in `_rollback_block` (qbit_network/core/rollback.py).
use qbit_network.Common.{String, [], ◌∷◌, Option, none, some, if◌then◌else◌, str_eq}
use qbit_network.Common.Int.{ℤ, pos, ◌-ℤ◌, leb_ℤ, max_ℤ}
use qbit_network.Common.Dict.{lookup, put, pop, string_eq, pair_eq}
use qbit_network.Transaction.{Transaction, amount, get_text}
use qbit_network.Tokens.{
  Token, TokenBalances, Tokens, token_balance, set_token_balance, drop_token_balance, credit_token,
  update_token_index,
}

-- Takes `x` from a balance; a balance of 0 or less goes, and its index entry with it.
unfoldable pub clamp_token : String → String → ℤ → Tokens → Tokens
unfolding update_token_index
clamp_token tid address x t =
    let new_balance = token_balance tid address t -ℤ x in
    update_token_index tid address (max_ℤ (pos 0) new_balance) (
      if leb_ℤ new_balance (pos 0)
      then drop_token_balance tid address t
      else set_token_balance tid address new_balance t)

-- The loop over the balances of a withdrawn token.
unfoldable pub drop_holders : String → TokenBalances → Tokens → Tokens
drop_holders token_id [] t = t
drop_holders token_id ((k, x) ∷ d) t = drop_holders token_id d (
    if str_eq k.0 token_id
    then update_token_index token_id k.1 (pos 0) (drop_token_balance token_id k.1 t)
    else t)

module _ (token_id_of : String → String → ℤ → String) where
  unfoldable pub rollback_issue : Transaction → Tokens → Tokens
  rollback_issue tx t =
      let symbol = get_text "symbol" tx in
      let token_id = token_id_of tx.sender symbol tx.nonce in
      drop_holders token_id t.balances
        (record t { registry = pop token_id t.registry; by_symbol = pop symbol t.by_symbol })

-- `max(0, total_minted - amount)` for a token that is registered.
abbrev uncount_minted : String → Option Token → ℤ → Tokens → Tokens
uncount_minted tid none x t = t
uncount_minted tid (some reg) x t = record t {
  registry =
      put tid (record reg { total_minted = max_ℤ (pos 0) (reg.total_minted -ℤ x) }) t.registry;
}

unfoldable pub rollback_mint : Transaction → Tokens → Tokens
rollback_mint tx t =
    let tid = get_text "token_id" tx in
    clamp_token tid tx.recipient (amount tx)
      (uncount_minted tid (lookup tid t.registry) (amount tx) t)

unfoldable pub rollback_transfer : Transaction → Tokens → Tokens
rollback_transfer tx t =
    let tid = get_text "token_id" tx in
    credit_token tid tx.sender (amount tx) (clamp_token tid tx.recipient (amount tx) t)
