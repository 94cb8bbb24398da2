-- ===== src/Ledger.antt =====
-- qbit_network/core/ledger.py: balances, supply and block rewards. Amounts are Python integers; a
-- debit of a rollback may leave a balance below zero. Logging is left out, and `_store` is None
-- (a chain without a data directory).
pub mod Moves
pub mod Reward
pub mod Pending
mod Examples
use qbit_network.Common.{
  ℕ, zero, suc, ◌+◌, ◌-◌, ◌*◌, ◌/◌, ◌^◌, ◌≤◌, String, Bool, true, false, not, ◌&&◌, List, [], ◌∷◌,
  Option, none, some, leb, if◌then◌else◌, str_eq,
}
use qbit_network.Common.Int.{ℤ, pos, ◌+ℤ◌, ◌-ℤ◌, ltb_ℤ, leb_ℤ, eqb_ℤ, min_ℤ, max_ℤ}
use qbit_network.Common.Dict.{Dict, lookup, put, pop, get_or, total, string_eq}
use qbit_network.Common.Exec.{Exec, ok, err, pure, raise, modify, ◌>>=◌, ◌>>◌}
use qbit_network.Config.{
  TxType, tx_fees, max_supply, initial_block_reward, halving_interval, genesis_balance_qbit,
  qubit_per_qbit,
}
use qbit_network.Fees.{tx_weight}
use qbit_network.Transaction.{Transaction, amount, is_staking}

-- The ValueErrors that processing a block can raise.
pub data Error : Type 0 where
  negative_credit negative_debit insufficient_balance : Error
  symbol_exists token_id_collision no_such_token not_issuer : Error
  mint_overflow exceeds_max_supply not_transferable insufficient_token_balance : Error
  negative_after_rollback supply_violation : Error

pub record Ledger : Type 0 where
  pub balances : Dict String ℤ
  pub total_minted : ℤ
  pub total_burned : ℤ
  pub financial_active : Bool

unfoldable pub get_balance : String → Ledger → ℤ
get_balance address l = get_or address (pos 0) l.balances

abbrev pub set_balance : String → ℤ → Ledger → Ledger
set_balance address balance l = record l { balances = put address balance l.balances }

abbrev pub drop_balance : String → Ledger → Ledger
drop_balance address l = record l { balances = pop address l.balances }

-- `_credit`
unfoldable pub credit : String → ℤ → Exec Error Ledger (Unit {0})
unfolding get_balance
credit address amount l =
    if ltb_ℤ amount (pos 0)
    then (err negative_credit, l)
    else if eqb_ℤ amount (pos 0)
    then (ok tt, l)
    else (ok tt, set_balance address (get_balance address l +ℤ amount) l)

-- `_debit`
unfoldable pub debit : String → ℤ → Exec Error Ledger (Unit {0})
unfolding get_balance
debit address amount l =
    if ltb_ℤ amount (pos 0)
    then (err negative_debit, l)
    else if eqb_ℤ amount (pos 0)
    then (ok tt, l)
    else (let current = get_balance address l in
        if ltb_ℤ current amount
        then (err insufficient_balance, l)
        else (let new_balance = current -ℤ amount in
            if eqb_ℤ new_balance (pos 0)
            then (ok tt, drop_balance address l)
            else (ok tt, set_balance address new_balance l)))

-- `_rollback_debit`
unfoldable pub rollback_debit : String → ℤ → Ledger → Ledger
unfolding get_balance
rollback_debit address amount l =
    if leb_ℤ amount (pos 0)
    then l
    else (let new_balance = get_balance address l -ℤ amount in
        if eqb_ℤ new_balance (pos 0)
        then drop_balance address l
        else set_balance address new_balance l)

-- `_calc_block_reward`; `>>` by the number of halvings is the division by that power of two.
unfoldable pub calc_block_reward : ℕ → Ledger → ℤ
calc_block_reward zero l = pos 0
calc_block_reward (suc i) l =
    let reward = initial_block_reward / 2 ^ (suc i / halving_interval) in
    let remaining = pos max_supply -ℤ l.total_minted in min_ℤ (pos reward) (max_ℤ (pos 0) remaining)

-- `activate_financial_layer`, but for the state trie and its snapshot, which it rebuilds at the end.
unfoldable pub activate_financial_layer : String → Exec Error Ledger (Unit {0})
activate_financial_layer validator_address l =
    if l.financial_active
    then (ok tt, l)
    else (let active = record l { financial_active = true } in
        if not (str_eq validator_address "") && eqb_ℤ (get_balance validator_address active) (pos 0)
        then (let genesis_balance = pos (genesis_balance_qbit * qubit_per_qbit) in
            (credit validator_address genesis_balance
                >> modify (λ m. record m { total_minted = m.total_minted +ℤ genesis_balance }))
              active)
        else (ok tt, active))

-- `_calc_tx_debit` for a next block at `next_block_height`; `activation` is
-- DYNAMIC_FEE_ACTIVATION_HEIGHT and `has_blocks` is `self._height >= 0`.
unfoldable pub calc_tx_debit : ℕ → Bool → ℕ → Transaction → ℤ
calc_tx_debit activation has_blocks next_block_height tx =
    let dynamic_active = leb activation next_block_height && has_blocks in
    let fee =
      if dynamic_active
      then pos (tx.max_fee_per_weight * tx_weight tx.tx_type)
      else pos (tx_fees tx.tx_type) in
    elim tx.tx_type [
      | TxType.transfer ↦ fee +ℤ amount tx
      | TxType.stake ↦ fee +ℤ amount tx
      | TxType.delegate ↦ fee +ℤ amount tx
      | _ ↦ fee
    ]

-- `_pending_debits`
unfoldable pub pending_debits : String → Dict String ℤ → ℤ
pending_debits address cache = get_or address (pos 0) cache

-- The loop of `_rebuild_pending_debits_cache`, from the cache built so far.
unfoldable pub rebuild_pending_debits_cache :
    (Transaction → ℤ) → List Transaction → Dict String ℤ → Dict String ℤ
rebuild_pending_debits_cache debit_of [] cache = cache
rebuild_pending_debits_cache debit_of (tx ∷ tx_pool) cache =
    rebuild_pending_debits_cache debit_of tx_pool
      (put tx.sender (get_or tx.sender (pos 0) cache +ℤ debit_of tx) cache)
