-- ===== src/Pool/Purge.antt =====
-- The purge of the pool when the signing key of a sender is revoked (_append_block_inner of
-- core/blockchain.py).
use mathlib.Core.Path.{subst}
use qbit_network.Common.{
  ℕ, ◌-◌, ◌≤◌, String, false, not, ◌&&◌, List, [], ◌∷◌, ◌≡◌, ◌≢◌, refl, str_eq, eq_iff, ◌==◌,
  length, arith, All, if◌then◌else◌, Bool-cases, inl, inr,
}
use qbit_network.Common.Int.{ℤ, pos, int_laws}
use qbit_network.Common.Dict.{Dict, put, pop, get_or, string_eq}
use qbit_network.Transaction.{Transaction}
use qbit_network.Staking.{member}
use qbit_network.Ledger.Pending.{pool_debits}
use qbit_network.Consensus.Nonces.{nonces_of}
use qbit_network.Consensus.Transactions.{AllApart}
use qbit_network.Pool.{Pool, type_value}
use qbit_network.Pool.Lists.{in_pool}
use qbit_network.Pool.Drain.{ids_of, discard_all}

-- `[t for t in self.tx_pool if t.sender == revoked_addr]`, and the others.
unfoldable pub from_sender : String → List Transaction → List Transaction
from_sender addr [] = []
from_sender addr (tx ∷ txs) =
    let rest = from_sender addr txs in if str_eq tx.sender addr then tx ∷ rest else rest

unfoldable pub without_sender : String → List Transaction → List Transaction
without_sender addr [] = []
without_sender addr (tx ∷ txs) =
    let rest = without_sender addr txs in if str_eq tx.sender addr then rest else tx ∷ rest

-- The counts of types, one lower for each removed transaction.
unfoldable pub lower_types : List Transaction → Dict String ℕ → Dict String ℕ
lower_types [] counts = counts
lower_types (tx ∷ txs) counts =
    let k = type_value tx.tx_type in
    let cnt = get_or k 1 counts - 1 in
    lower_types txs (if cnt == 0 then pop k counts else put k cnt counts)

abbrev pub lower_count : String → ℕ → Dict String ℕ → Dict String ℕ
lower_count addr removed counts =
    let remaining = get_or addr 0 counts - removed in
    if remaining == 0 then pop addr counts else put addr remaining counts

abbrev pub purge_by : List Transaction → String → Pool → Pool
purge_by [] addr p = p
purge_by (tx ∷ txs) addr p = record {
  tx_pool = without_sender addr p.tx_pool;
  pool_ids = discard_all (ids_of (tx ∷ txs)) p.pool_ids;
  pool_sender_count = lower_count addr (length (tx ∷ txs)) p.pool_sender_count;
  pending_debits_cache = pop addr p.pending_debits_cache;
  pool_type_counts = lower_types (tx ∷ txs) p.pool_type_counts;
}

unfoldable pub purge_sender : String → Pool → Pool
unfolding from_sender without_sender lower_types discard_all
purge_sender addr p = purge_by (from_sender addr p.tx_pool) addr p

pub length-from_sender :
    (addr : String) (txs : List Transaction)
    → length (from_sender addr txs) ≡ length (nonces_of addr txs)
unfolding from_sender
length-from_sender addr [] = refl
length-from_sender addr (tx ∷ txs) = ground (arith, length-from_sender addr txs)

pub length-without_sender :
    (addr : String) (txs : List Transaction) → length (without_sender addr txs) ≤ length txs
unfolding without_sender
length-without_sender addr [] = omega arith
length-without_sender addr (tx ∷ txs) = ground (arith, length-without_sender addr txs)

pub nonces_of-without_sender :
    (addr s : String) (txs : List Transaction)
    → nonces_of s (without_sender addr txs) ≡ (if str_eq addr s then [] else nonces_of s txs)
unfolding without_sender
nonces_of-without_sender addr s [] = ground arith
nonces_of-without_sender addr s (tx ∷ txs) = ground (
  arith,
  eq_iff tx.sender addr,
  eq_iff tx.sender s,
  eq_iff addr s,
  nonces_of-without_sender addr s txs,
)

pub pool_debits-without_sender :
    (debit_of : Transaction → ℤ) (addr s : String) (txs : List Transaction)
    → pool_debits debit_of s (without_sender addr txs)
      ≡ (if str_eq addr s then pos 0 else pool_debits debit_of s txs)
unfolding without_sender
pool_debits-without_sender debit_of addr s [] = ground arith
pool_debits-without_sender debit_of addr s (tx ∷ txs) = grind (
  int_laws,
  eq_iff tx.sender addr,
  eq_iff tx.sender s,
  eq_iff addr s,
  pool_debits-without_sender debit_of addr s txs,
)

All-without_sender {κ} :
    (P : Transaction → Type κ) (addr : String) (txs : List Transaction)
    → All P txs
    → All P (without_sender addr txs)
unfolding without_sender
All-without_sender P addr [] h = tt
All-without_sender P addr (tx ∷ txs) h = elim (Bool-cases (str_eq tx.sender addr)) [
  | inl e ↦ rw e (All-without_sender P addr txs h.1)
  | inr n ↦ rw n (h.0, All-without_sender P addr txs h.1)
]

pub without_sender-AllApart :
    (addr : String) (txs : List Transaction) → AllApart txs → AllApart (without_sender addr txs)
unfolding without_sender
without_sender-AllApart addr [] h = tt
without_sender-AllApart addr (tx ∷ txs) h = elim (Bool-cases (str_eq tx.sender addr)) [
  | inl e ↦ rw e (without_sender-AllApart addr txs h.1)
  | inr n ↦ rw n (All-without_sender _ addr txs h.0, without_sender-AllApart addr txs h.1)
]

-- An id that no transaction has.
absent_id :
    (id : String) (txs : List Transaction) → All (λ u. u.tx_id ≢ id) txs → in_pool id txs ≡ false
absent_id id [] h = refl
absent_id id (u ∷ txs) h = elim (Bool-cases (str_eq u.tx_id id)) [
  | inl e ↦ absurd (h.0 ((eq_iff u.tx_id id).0 e))
  | inr n ↦ rw (n, absent_id id txs h.1) refl
]

from_sender_absent :
    (id addr : String) (txs : List Transaction)
    → in_pool id txs ≡ false
    → member id (ids_of (from_sender addr txs)) ≡ false
unfolding from_sender member
from_sender_absent id addr [] h = refl
from_sender_absent id addr (tx ∷ txs) h =
    let rest = from_sender_absent id addr txs (ground arith) in ground arith

-- With the ids apart, what is left by ids is what is left by senders.
pub in_pool-without_sender :
    (id addr : String) (txs : List Transaction)
    → AllApart txs
    → in_pool id (without_sender addr txs)
      ≡ in_pool id txs && not (member id (ids_of (from_sender addr txs)))
unfolding without_sender from_sender member
in_pool-without_sender id addr [] h = refl
in_pool-without_sender id addr (tx ∷ txs) h =
    let ih = in_pool-without_sender id addr txs h.1 in
    elim (Bool-cases (str_eq tx.tx_id id)) [
      | inl e ↦
          let gone =
            absent_id id txs
              (subst (λ x. All (λ u. u.tx_id ≢ x) txs) ((eq_iff tx.tx_id id).0 e) h.0) in
          let none_removed = from_sender_absent id addr txs gone in ground arith
      | inr n ↦ ground arith
    ]
