-- ===== src/Pool/Purged.antt =====
-- The purge of a revoked sender keeps the invariant of the pool.
use qbit_network.Common.{
  ℕ, ◌-◌, ◌≤◌, String, Bool, true, false, not, ◌&&◌, List, [], ◌∷◌, none, ◌≡◌, refl, sym, ap, ◌∙◌,
  str_eq, eq_iff, ◌==◌, length, arith, if◌then◌else◌, ◌⊎◌, inl, inr,
}
use qbit_network.Common.Int.{ℤ, pos, ◌≤ℤ◌}
use qbit_network.Common.Dict.{
  Dict, Distinct, lookup, put, pop, get_or, or_else, lookup-pop, put-Distinct, pop-Distinct,
  string_eq,
}
use qbit_network.Transaction.{Transaction}
use qbit_network.Staking.{member}
use qbit_network.Ledger.{get_balance, pending_debits}
use qbit_network.Consensus.Nonces.{nonces_of, IsRun}
use qbit_network.Pool.{Pool, Chain, next_debit, get_nonce}
use qbit_network.Pool.Lists.{in_pool}
use qbit_network.Pool.Drain.{ids_of, member-discard_all}
use qbit_network.Pool.Invariant.{IsSound}
use qbit_network.Pool.Purge.{
  from_sender, lower_count, purge_by, purge_sender, length-from_sender, length-without_sender,
  nonces_of-without_sender, pool_debits-without_sender, without_sender-AllApart,
  in_pool-without_sender,
}

get_or-pop {ℓ} :
    {V : Type ℓ} (s t : String) (u : V) (d : Dict String V)
    → Distinct d
    → get_or s u (pop t d) ≡ (if str_eq t s then u else get_or s u d)
get_or-pop s t u d h = ap (λ o. or_else o u) (lookup-pop s t d h) ∙ choose (str_eq t s)
  where
    choose :
        (b : Bool)
        → or_else (if b then none else lookup s d) u ≡ (if b then u else or_else (lookup s d) u)
    choose true = refl
    choose false = refl

counts_purged :
    (addr s : String) (n : ℕ) (counts : Dict String ℕ)
    → Distinct counts
    → get_or addr 0 counts ≡ n
    → get_or s 0 (lower_count addr n counts) ≡ (if str_eq addr s then 0 else get_or s 0 counts)
counts_purged addr s n counts u h = rw h (
    ap (λ b. get_or s 0 (if b then pop addr counts else put addr (n - n) counts)) (same n)
    ∙ get_or-pop s addr 0 counts u)
  where
    same : (n : ℕ) → ((n - n) == 0) ≡ true
    same n = ground arith

lowered-Distinct :
    (addr : String) (n : ℕ) (counts : Dict String ℕ)
    → Distinct counts
    → Distinct (lower_count addr n counts)
lowered-Distinct addr n counts u = by_test ((get_or addr 0 counts - n) == 0)
  where
    by_test :
        (b : Bool)
        → Distinct (if b then pop addr counts else put addr (get_or addr 0 counts - n) counts)
    by_test true = pop-Distinct addr counts u
    by_test false = put-Distinct addr (get_or addr 0 counts - n) counts u

module _ (activation : ℕ) (c : Chain) (addr : String) (p : Pool) (inv : IsSound activation c p)
    (rich : (s : String) → pos 0 ≤ℤ get_balance s c.finance.ledger) where
  purged :
      (removed : List Transaction)
      → from_sender addr p.tx_pool ≡ removed
      → IsSound activation c (purge_by removed addr p)
  unfolding pending_debits
  purged [] e = inv
  purged (tx ∷ txs) e =
      let size = sym (ap length e) ∙ length-from_sender addr p.tx_pool in
      record {
        within = fewer (length-without_sender addr p.tx_pool) inv.within;
        apart = without_sender-AllApart addr p.tx_pool inv.apart;
        counts_distinct =
            lowered-Distinct addr (length (tx ∷ txs)) p.pool_sender_count inv.counts_distinct;
        cache_distinct = pop-Distinct addr p.pending_debits_cache inv.cache_distinct;
        ids = λ id.
            member-discard_all id (ids_of (tx ∷ txs)) p.pool_ids
            ∙ ap (λ b. b && not (member id (ids_of (tx ∷ txs)))) (inv.ids id)
            ∙ ap (λ l. in_pool id p.tx_pool && not (member id (ids_of l))) (sym e)
            ∙ sym (in_pool-without_sender id addr p.tx_pool inv.apart);
        counts = λ s.
            counts_purged addr s (length (tx ∷ txs)) p.pool_sender_count inv.counts_distinct
              (inv.counts addr ∙ sym size)
            ∙ ap (λ n. if str_eq addr s then 0 else n) (inv.counts s)
            ∙ by_test (str_eq addr s) (nonces_of s p.tx_pool)
            ∙ sym (ap length (nonces_of-without_sender addr s p.tx_pool));
        in_order = λ s.
            rw (nonces_of-without_sender addr s p.tx_pool)
              (shorter (str_eq addr s) (get_nonce s c) (nonces_of s p.tx_pool) (inv.in_order s));
        debits = λ s.
            get_or-pop s addr (pos 0) p.pending_debits_cache inv.cache_distinct
            ∙ ap (λ x. if str_eq addr s then pos 0 else x) (inv.debits s)
            ∙ sym (pool_debits-without_sender (next_debit activation c) addr s p.tx_pool);
        solvent = still inv.solvent;
      }
    where
      by_test : (b : Bool) (l : List ℤ) → (if b then 0 else length l) ≡ length (if b then [] else l)
      by_test true l = refl
      by_test false l = refl

      shorter :
          (b : Bool) (start : ℤ) (l : List ℤ) → IsRun start l → IsRun start (if b then [] else l)
      shorter true start l run = tt
      shorter false start l run = run

      fewer : {a b m : ℕ} → a ≤ b → b ≤ m → a ≤ m
      fewer h g = omega arith

      either : (b : Bool) (x y : ℤ) → pos 0 ≤ℤ y → x ≤ℤ y → (if b then pos 0 else x) ≤ℤ y
      either true x y h g = h
      either false x y h g = g

      still :
          (c.finance.ledger.financial_active ≡ false)
            ⊎ ((s : String)
                → pending_debits s p.pending_debits_cache ≤ℤ get_balance s c.finance.ledger)
          → (c.finance.ledger.financial_active ≡ false)
            ⊎ ((s : String)
                → pending_debits s (pop addr p.pending_debits_cache)
                  ≤ℤ get_balance s c.finance.ledger)
      still (inl off) = inl off
      still (inr before) = inr (λ s.
          rw (get_or-pop s addr (pos 0) p.pending_debits_cache inv.cache_distinct) (
            either (str_eq addr s) (get_or s (pos 0) p.pending_debits_cache)
              (get_balance s c.finance.ledger) (rich s) (before s)))

  -- If no balance is negative, the purge of a sender keeps the invariant of the pool: what is left of
  -- the ids, the counts, the nonces and the reserved debits is that of the transactions that are left;
  -- and none of these is from the sender.
  pub purge_sender-IsSound :
      IsSound activation c (purge_sender addr p)
      × (nonces_of addr (purge_sender addr p).tx_pool ≡ [])
  unfolding purge_sender
  purge_sender-IsSound =
      (purged (from_sender addr p.tx_pool) refl, gone (from_sender addr p.tx_pool) refl)
    where
      empty : (l : List ℤ) → length l ≡ 0 → l ≡ []
      empty [] h = refl
      empty (x ∷ l) h = ground arith

      gone :
          (removed : List Transaction)
          → from_sender addr p.tx_pool ≡ removed
          → nonces_of addr (purge_by removed addr p).tx_pool ≡ []
      gone [] e =
          empty (nonces_of addr p.tx_pool) (sym (length-from_sender addr p.tx_pool) ∙ ap length e)
      gone (tx ∷ txs) e =
          nonces_of-without_sender addr addr p.tx_pool
          ∙ ap (λ b. if b then [] else nonces_of addr p.tx_pool) ((eq_iff addr addr).1 refl)
