-- ===== src/Pool/Drain.antt =====
-- `_drain_pool` of core/blockchain.py, after a block is appended: `c` is the chain with the block.
use qbit_network.Common.{
  ℕ, ◌+◌, ◌-◌, String, not, ◌&&◌, List, [], ◌∷◌, ◌≡◌, refl, sym, ap, ◌∙◌, str_eq, eq_iff, leb,
  arith, map, All, if◌then◌else◌, Bool-cases, inl, inr,
}
use qbit_network.Common.Int.{ℤ, pos, ◌+ℤ◌, int_laws}
use qbit_network.Common.Dict.{Dict, lookup, put, pop, get_or, lookup-put, string_eq}
use qbit_network.Transaction.{Transaction}
use qbit_network.Staking.{member, discard}
use qbit_network.Ledger.{pending_debits, rebuild_pending_debits_cache}
use qbit_network.Ledger.Pending.{pool_debits, rebuild_pending_debits_cache_lem}
use qbit_network.Consensus.Transactions.{AllApart}
use qbit_network.Pool.{Pool, Chain, next_debit, type_value, count_type}
use qbit_network.Pool.Lists.{in_pool}

-- `mined_senders`
unfoldable pub mined_senders : List Transaction → Dict String ℕ → Dict String ℕ
mined_senders [] counts = counts
mined_senders (tx ∷ txs) counts =
    mined_senders txs (put tx.sender (get_or tx.sender 0 counts + 1) counts)

-- The transactions that are not in the block.
unfoldable pub unmined : List String → List Transaction → List Transaction
unmined ids [] = []
unmined ids (tx ∷ txs) =
    let rest = unmined ids txs in if member tx.tx_id ids then rest else tx ∷ rest

-- `self._pool_ids -= mined_ids`
unfoldable pub discard_all : List String → List String → List String
discard_all [] l = l
discard_all (x ∷ xs) l = discard_all xs (discard x l)

-- The loop over the senders.
unfoldable pub lower_counts : Dict String ℕ → Dict String ℕ → Dict String ℕ
lower_counts [] counts = counts
lower_counts ((sender, cnt) ∷ d) counts =
    let held = get_or sender cnt counts in
    lower_counts d (if leb held cnt then pop sender counts else put sender (held - cnt) counts)

-- The rebuilt counts of types.
unfoldable pub count_types : List Transaction → Dict String ℕ → Dict String ℕ
count_types [] counts = counts
count_types (tx ∷ txs) counts = count_types txs (count_type tx.tx_type counts)

abbrev pub ids_of : List Transaction → List String
ids_of txs = map (λ tx. tx.tx_id) txs

unfoldable pub drain_pool : ℕ → Chain → List Transaction → Pool → Pool
unfolding mined_senders unmined discard_all lower_counts count_types
drain_pool activation c block_txs p =
    let mined_ids = ids_of block_txs in
    let kept = unmined mined_ids p.tx_pool in
    record {
      tx_pool = kept;
      pool_ids = discard_all mined_ids p.pool_ids;
      pool_sender_count = lower_counts (mined_senders block_txs []) p.pool_sender_count;
      pool_type_counts = count_types kept [];
      pending_debits_cache = rebuild_pending_debits_cache (next_debit activation c) kept [];
    }

-- A transaction is left exactly if it was there and is not in the block.
in_pool-unmined :
    (id : String) (ids : List String) (txs : List Transaction)
    → in_pool id (unmined ids txs) ≡ in_pool id txs && not (member id ids)
unfolding unmined
in_pool-unmined id ids [] = refl
in_pool-unmined id ids (tx ∷ txs) = ground (arith, eq_iff tx.tx_id id, in_pool-unmined id ids txs)

member-discard :
    (x y : String) (l : List String) → member x (discard y l) ≡ member x l && not (str_eq y x)
unfolding member discard
member-discard x y [] = refl
member-discard x y (z ∷ l) =
    ground (arith, eq_iff z y, eq_iff z x, eq_iff y x, member-discard x y l)

pub member-discard_all :
    (x : String) (ids l : List String)
    → member x (discard_all ids l) ≡ member x l && not (member x ids)
unfolding discard_all member
member-discard_all x [] l = ground arith
member-discard_all x (y ∷ ids) l =
    ground (arith, member-discard_all x ids (discard y l), member-discard x y l)

All-unmined {κ} :
    (P : Transaction → Type κ) (ids : List String) (txs : List Transaction)
    → All P txs
    → All P (unmined ids txs)
unfolding unmined
All-unmined P ids [] h = tt
All-unmined P ids (tx ∷ txs) h = elim (Bool-cases (member tx.tx_id ids)) [
  | inl e ↦ rw e (All-unmined P ids txs h.1)
  | inr n ↦ rw n (h.0, All-unmined P ids txs h.1)
]

unmined-AllApart :
    (ids : List String) (txs : List Transaction) → AllApart txs → AllApart (unmined ids txs)
unfolding unmined
unmined-AllApart ids [] h = tt
unmined-AllApart ids (tx ∷ txs) h = elim (Bool-cases (member tx.tx_id ids)) [
  | inl e ↦ rw e (unmined-AllApart ids txs h.1)
  | inr n ↦ rw n (All-unmined _ ids txs h.0, unmined-AllApart ids txs h.1)
]

-- The number of transactions whose type has this name.
abbrev pub of_type : String → List Transaction → ℕ
of_type k [] = 0
of_type k (tx ∷ txs) = (if str_eq (type_value tx.tx_type) k then 1 else 0) + of_type k txs

get_or-count_types :
    (k : String) (txs : List Transaction) (counts : Dict String ℕ)
    → get_or k 0 (count_types txs counts) ≡ get_or k 0 counts + of_type k txs
unfolding count_types count_type
get_or-count_types k [] counts = omega arith
get_or-count_types k (tx ∷ txs) counts =
    let t = type_value tx.tx_type in
    let more = get_or t 0 counts + 1 in
    ground
      (arith, eq_iff t k, lookup-put k t more counts, get_or-count_types k txs (put t more counts))

-- Draining the pool after a block removes exactly the block's transactions, from the list and from
-- the set of ids if this was that of the list; it keeps the ids apart; and the rebuilt counts of
-- types and reserved debits are those of the transactions that are left, at the new height.
pub drain_pool_lem :
    (activation : ℕ) (c : Chain) (block_txs : List Transaction) (p : Pool)
    → ((id : String) → member id p.pool_ids ≡ in_pool id p.tx_pool)
    → AllApart p.tx_pool
    → let q = drain_pool activation c block_txs p in
      ((id : String)
        → in_pool id q.tx_pool ≡ in_pool id p.tx_pool && not (member id (ids_of block_txs)))
      × ((id : String) → member id q.pool_ids ≡ in_pool id q.tx_pool)
      × AllApart q.tx_pool
      × ((k : String) → get_or k 0 q.pool_type_counts ≡ of_type k q.tx_pool)
      × ((s : String)
          → pending_debits s q.pending_debits_cache
            ≡ pool_debits (next_debit activation c) s q.tx_pool)
unfolding drain_pool pending_debits lookup
drain_pool_lem activation c block_txs p ids apart =
    let mined = ids_of block_txs in
    let kept = unmined mined p.tx_pool in
    (
      λ id. in_pool-unmined id mined p.tx_pool,
      λ id.
          member-discard_all id mined p.pool_ids
          ∙ ap (λ b. b && not (member id mined)) (ids id)
          ∙ sym (in_pool-unmined id mined p.tx_pool),
      unmined-AllApart mined p.tx_pool apart,
      λ k. get_or-count_types k kept [] ∙ omega arith,
      λ s.
          rebuild_pending_debits_cache_lem (next_debit activation c) s kept []
          ∙ zero_add (pool_debits (next_debit activation c) s kept),
    )
  where
    zero_add : (x : ℤ) → pos 0 +ℤ x ≡ x
    zero_add x = omega int_laws
