-- ===== src/Ledger/Pending.antt =====
-- The cache of pending debits in core/ledger.py against the pool that it is built from, and what
-- it reserves for a transaction.
use qbit_network.Common.{ℕ, ◌≤◌, String, true, List, [], ◌∷◌, ◌≡◌, str_eq, eq_iff, if◌then◌else◌}
use qbit_network.Common.Int.{ℤ, pos, ◌+ℤ◌, ◌≤ℤ◌, int_laws}
use qbit_network.Common.Dict.{Dict, put, get_or, lookup-put, string_eq}
use qbit_network.Fees.{tx_weight, compute_tx_fee}
use qbit_network.Fees.Bounds.{compute_tx_fee_bounds}
use qbit_network.Transaction.{Transaction, amount}
use qbit_network.Ledger.{pending_debits, rebuild_pending_debits_cache, calc_tx_debit}

-- The debits of the pool's transactions from one sender.
abbrev pub pool_debits : (Transaction → ℤ) → String → List Transaction → ℤ
pool_debits debit_of address [] = pos 0
pool_debits debit_of address (tx ∷ tx_pool) =
    (if str_eq tx.sender address then debit_of tx else pos 0)
    +ℤ pool_debits debit_of address tx_pool

-- A rebuild adds to each sender's entry of the cache exactly the debits of its pool transactions;
-- from an empty cache the entry is that sum.
pub rebuild_pending_debits_cache_lem :
    (debit_of : Transaction → ℤ) (address : String) (tx_pool : List Transaction)
    (cache : Dict String ℤ)
    → pending_debits address (rebuild_pending_debits_cache debit_of tx_pool cache)
      ≡ pending_debits address cache +ℤ pool_debits debit_of address tx_pool
unfolding pending_debits rebuild_pending_debits_cache
rebuild_pending_debits_cache_lem debit_of a [] cache = omega int_laws
rebuild_pending_debits_cache_lem debit_of a (tx ∷ pool) cache =
    let c = get_or tx.sender (pos 0) cache +ℤ debit_of tx in
    grind (
      int_laws,
      eq_iff tx.sender a,
      lookup-put a tx.sender c cache,
      rebuild_pending_debits_cache_lem debit_of a pool (put tx.sender c cache),
    )

-- Under dynamic fees, what is reserved for a transaction whose cap covers the base fee is at least
-- the fee that a block at that base fee takes.
pub calc_tx_debit_covers_fee :
    (activation height base : ℕ) (tx : Transaction)
    → activation ≤ height
    → base ≤ tx.max_fee_per_weight
    → pos 0 ≤ℤ amount tx
    → pos (compute_tx_fee base tx.max_fee_per_weight tx.max_priority_fee (tx_weight tx.tx_type))
      ≤ℤ calc_tx_debit activation true height tx
unfolding calc_tx_debit
calc_tx_debit_covers_fee activation height base tx active covered nonneg = grind (
  int_laws,
  compute_tx_fee_bounds base tx.max_fee_per_weight tx.max_priority_fee (tx_weight tx.tx_type)
      covered,
)
