-- ===== src/Pool/Invariant.antt =====
-- The invariant of the pool, and that submit_tx keeps it.
use mathlib.Core.Path.{subst}
use qbit_network.Common.{
  ℕ, ◌+◌, ◌≤◌, ◌<◌, String, Bool, true, false, ◌||◌, [], ◌∷◌, ◌++◌, some, ◌≡◌, refl, sym, ap, ◌∙◌,
  str_eq, eq_iff, length, length-append, arith, if◌then◌else◌, Bool-cases, ◌⊎◌, inl, inr,
}
use qbit_network.Common.Int.{ℤ, pos, ◌+ℤ◌, ◌-ℤ◌, ◌≤ℤ◌, +ℤ_zero, int_laws}
use qbit_network.Common.Dict.{
  Dict, Distinct, lookup, put, get_or, or_else, lookup-put, put-Distinct, string_eq,
}
use qbit_network.Common.Exec.{ok, err, accept}
use qbit_network.Config.{max_tx_pool_size, main_chain_id}
use qbit_network.Transaction.{Transaction, Primitives, verify}
use qbit_network.Payload.Validate.{validate_payload}
use qbit_network.Staking.{member}
use qbit_network.Ledger.{get_balance, pending_debits}
use qbit_network.Ledger.Pending.{pool_debits}
use qbit_network.Consensus.Nonces.{nonces_of, IsRun}
use qbit_network.Consensus.Transactions.{AllApart}
use qbit_network.Pool.{Pool, Chain, get_nonce, next_debit, add_tx, is_key_revoked}
use qbit_network.Pool.Admission.{Rejection}
use qbit_network.Pool.Submit.{Facts, due_nonce, submit_tx, submit_tx-cases}
use qbit_network.Pool.Lists.{
  in_pool, in_pool-append, member-add_member, nonces_of-append, append-IsRun, pool_debits-append,
  append-AllApart,
}
use qbit_network.Pool.Solvency.{next_debit_covered}

-- The set of ids, the counts and the cache of debits are those of the list; the list is within
-- its limit, holds no id twice, and has each sender's nonces in order from the chain's on; and with
-- the financial layer active no sender has more reserved than its balance.
pub record IsSound (activation : ℕ) (c : Chain) (p : Pool) : Type 0 where
  pub within : length p.tx_pool ≤ max_tx_pool_size
  pub apart : AllApart p.tx_pool
  pub counts_distinct : Distinct p.pool_sender_count
  pub cache_distinct : Distinct p.pending_debits_cache
  pub ids : (id : String) → member id p.pool_ids ≡ in_pool id p.tx_pool
  pub counts : (s : String) → get_or s 0 p.pool_sender_count ≡ length (nonces_of s p.tx_pool)
  pub in_order : (s : String) → IsRun (get_nonce s c) (nonces_of s p.tx_pool)
  pub debits :
      (s : String)
      → pending_debits s p.pending_debits_cache ≡ pool_debits (next_debit activation c) s p.tx_pool
  pub solvent :
      (c.finance.ledger.financial_active ≡ false)
      ⊎ ((s : String) → pending_debits s p.pending_debits_cache ≤ℤ get_balance s c.finance.ledger)

-- An entry of a dict after one is overwritten.
get_or-put {ℓ} :
    {V : Type ℓ} (s t : String) (u v : V) (d : Dict String V)
    → get_or s u (put t v d) ≡ (if str_eq t s then v else get_or s u d)
get_or-put s t u v d = ap (λ o. or_else o u) (lookup-put s t v d) ∙ choose (str_eq t s)
  where
    choose :
        (b : Bool)
        → or_else (if b then some v else lookup s d) u ≡ (if b then v else or_else (lookup s d) u)
    choose true = refl
    choose false = refl

grown : (n m : ℕ) → m ≡ n + 1 → n < max_tx_pool_size → m ≤ max_tx_pool_size
grown n m e h = ground arith

module _ (prims : Primitives) (activation : ℕ) (c : Chain) (tx : Transaction) (p : Pool)
    (inv : IsSound activation c p) (facts : Facts prims activation tx c p) where
  -- The nonces of the sender of the new transaction, and those of the others.
  nonces_own :
      (s : String)
      → str_eq tx.sender s ≡ true
      → nonces_of s (p.tx_pool ++ (tx ∷ [])) ≡ nonces_of s p.tx_pool ++ (tx.nonce ∷ [])
  nonces_own s e =
      nonces_of-append s p.tx_pool tx
      ∙ ap (λ b. if b then nonces_of s p.tx_pool ++ (tx.nonce ∷ []) else nonces_of s p.tx_pool) e

  nonces_other :
      (s : String)
      → str_eq tx.sender s ≡ false
      → nonces_of s (p.tx_pool ++ (tx ∷ [])) ≡ nonces_of s p.tx_pool
  nonces_other s n =
      nonces_of-append s p.tx_pool tx
      ∙ ap (λ b. if b then nonces_of s p.tx_pool ++ (tx.nonce ∷ []) else nonces_of s p.tx_pool) n

  counts_after :
      (s : String)
      → get_or s 0 (add_tx activation c tx p).pool_sender_count
        ≡ length (nonces_of s (add_tx activation c tx p).tx_pool)
  unfolding add_tx
  counts_after s =
      let count = λ (t : String). get_or t 0 p.pool_sender_count in
      let l = nonces_of s p.tx_pool in
      get_or-put s tx.sender 0 (count tx.sender + 1) p.pool_sender_count
      ∙ (elim (Bool-cases (str_eq tx.sender s)) [
        | inl e ↦
            ap (λ b. if b then count tx.sender + 1 else count s) e
            ∙ ap (λ t. count t + 1) ((eq_iff tx.sender s).0 e)
            ∙ ap (λ n. n + 1) (inv.counts s)
            ∙ sym (ap length (nonces_own s e) ∙ length-append l (tx.nonce ∷ []))
        | inr n ↦
            ap (λ b. if b then count tx.sender + 1 else count s) n
            ∙ inv.counts s
            ∙ sym (ap length (nonces_other s n))
      ])

  order_after :
      (s : String) → IsRun (get_nonce s c) (nonces_of s (add_tx activation c tx p).tx_pool)
  unfolding add_tx
  order_after s = elim (Bool-cases (str_eq tx.sender s)) [
    | inl e ↦ rw (nonces_own s e) (
        append-IsRun (get_nonce s c) tx.nonce (nonces_of s p.tx_pool) (inv.in_order s) (
          subst (λ t. tx.nonce ≡ get_nonce t c +ℤ pos (get_or t 0 p.pool_sender_count))
            ((eq_iff tx.sender s).0 e) facts.due
          ∙ ap (λ n. get_nonce s c +ℤ pos n) (inv.counts s)))
    | inr n ↦ rw (nonces_other s n) (inv.in_order s)
  ]

  -- The cache entry of an address after the new transaction.
  cache_after :
      (s : String)
      → pending_debits s (add_tx activation c tx p).pending_debits_cache
        ≡ pending_debits s p.pending_debits_cache
          +ℤ (if str_eq tx.sender s then next_debit activation c tx else pos 0)
  unfolding add_tx pending_debits
  cache_after s =
      let held = λ (t : String). get_or t (pos 0) p.pending_debits_cache in
      let new = next_debit activation c tx in
      get_or-put s tx.sender (pos 0) (held tx.sender +ℤ new) p.pending_debits_cache
      ∙ (elim (Bool-cases (str_eq tx.sender s)) [
        | inl e ↦
            ap (λ b. if b then held tx.sender +ℤ new else held s) e
            ∙ ap (λ t. held t +ℤ new) ((eq_iff tx.sender s).0 e)
            ∙ ap (λ b. held s +ℤ (if b then new else pos 0)) (sym e)
        | inr n ↦
            ap (λ b. if b then held tx.sender +ℤ new else held s) n
            ∙ sym (+ℤ_zero (held s))
            ∙ ap (λ b. held s +ℤ (if b then new else pos 0)) (sym n)
      ])

  solvent_after :
      c.finance.ledger.financial_active ≡ true
      → ((s : String) → pending_debits s p.pending_debits_cache ≤ℤ get_balance s c.finance.ledger)
      → (s : String)
      → pending_debits s (add_tx activation c tx p).pending_debits_cache
        ≤ℤ get_balance s c.finance.ledger
  solvent_after active before s =
      let held = λ (t : String). pending_debits t p.pending_debits_cache in
      let bal = λ (t : String). get_balance t c.finance.ledger in
      let new = next_debit activation c tx in
      rw (cache_after s) (elim (Bool-cases (str_eq tx.sender s)) [
        | inl e ↦ rw e (
            subst (λ t. held t +ℤ new ≤ℤ bal t) ((eq_iff tx.sender s).0 e)
              (fits (held tx.sender) (bal tx.sender) new (
                next_debit_covered activation tx c p facts.covered.0 facts.covered.1 active
                  (left (held tx.sender) (bal tx.sender) (before tx.sender)))))
        | inr n ↦ rw n (none_more (held s) (bal s) (before s))
      ])
    where
      fits : (h b d : ℤ) → d ≤ℤ b -ℤ h → h +ℤ d ≤ℤ b
      fits h b d e = omega int_laws

      left : (h b : ℤ) → h ≤ℤ b → pos 0 ≤ℤ b -ℤ h
      left h b e = omega int_laws

      none_more : (h b : ℤ) → h ≤ℤ b → h +ℤ pos 0 ≤ℤ b
      none_more h b e = omega int_laws

  covered_after :
      (c.finance.ledger.financial_active ≡ false)
        ⊎ ((s : String) → pending_debits s p.pending_debits_cache ≤ℤ get_balance s c.finance.ledger)
      → (c.finance.ledger.financial_active ≡ false)
        ⊎ ((s : String)
            → pending_debits s (add_tx activation c tx p).pending_debits_cache
              ≤ℤ get_balance s c.finance.ledger)
  covered_after (inl off) = inl off
  covered_after (inr before) = elim (Bool-cases c.finance.ledger.financial_active) [
    | inl active ↦ inr (solvent_after active before)
    | inr off ↦ inl off
  ]

  add_tx-IsSound : IsSound activation c (add_tx activation c tx p)
  unfolding add_tx
  add_tx-IsSound = record {
    within = grown (length p.tx_pool) _ (length-append p.tx_pool (tx ∷ [])) facts.room;
    apart = append-AllApart p.tx_pool tx inv.apart (sym (inv.ids tx.tx_id) ∙ facts.unpooled);
    ids = λ id.
        member-add_member id tx.tx_id p.pool_ids
        ∙ ap (λ b. str_eq tx.tx_id id || b) (inv.ids id)
        ∙ sym (in_pool-append id p.tx_pool tx);
    counts_distinct = put-Distinct tx.sender _ p.pool_sender_count inv.counts_distinct;
    cache_distinct = put-Distinct tx.sender _ p.pending_debits_cache inv.cache_distinct;
    counts = counts_after;
    in_order = order_after;
    debits = λ s.
        cache_after s
        ∙ ap (λ x. x +ℤ (if str_eq tx.sender s then next_debit activation c tx else pos 0))
            (inv.debits s)
        ∙ sym (pool_debits-append (next_debit activation c) s p.tx_pool tx);
    solvent = covered_after inv.solvent;
  }

-- The invariant of the pool holds after a call of submit_tx, whether it admits the transaction or
-- not, if it held before: the ids, the counts and the reserved debits are those of the
-- transactions in the pool, which is within its limit and has no id twice; counts and debits list no
-- sender twice; the nonces of each sender follow from the chain's on; and with the financial layer
-- active no sender reserves more than its balance.
pub submit_tx-IsSound :
    (prims : Primitives) (activation : ℕ) (now : ℤ) (tx : Transaction) (c : Chain) (p : Pool)
    → IsSound activation c p
    → IsSound activation c (submit_tx prims activation now tx c p).1
submit_tx-IsSound prims activation now tx c p inv =
    elim (submit_tx-cases prims activation now tx c p) [
      | inl (e, facts) ↦
          subst (λ r. IsSound activation c r.1) (sym e)
            (add_tx-IsSound prims activation c tx p inv facts)
      | inr (r, e) ↦ subst (λ r. IsSound activation c r.1) (sym e) inv
    ]

-- A call of submit_tx either admits the transaction and appends it to the pool, or it returns an
-- error and leaves the pool as it was. It admits only a transaction for this chain, signed, with an
-- accepted payload, that is neither in the chain nor in the pool, with the next nonce of its sender
-- after those in the pool, and from a sender whose signing key is not revoked.
pub submit_tx_atomic :
    (prims : Primitives) (activation : ℕ) (now : ℤ) (tx : Transaction) (c : Chain) (p : Pool)
    → (((submit_tx prims activation now tx c p).0 ≡ ok tx.tx_id)
        × ((submit_tx prims activation now tx c p).1.tx_pool ≡ p.tx_pool ++ (tx ∷ []))
        × (tx.chain_id ≡ main_chain_id)
        × (verify prims tx ≡ true)
        × (validate_payload prims tx ≡ accept)
        × (member tx.tx_id c.tx_by_id ≡ false)
        × (member tx.tx_id p.pool_ids ≡ false)
        × (tx.nonce ≡ due_nonce tx.sender c p)
        × (is_key_revoked tx.sender "signing" c ≡ false))
      ⊎ ((r : Rejection) × ((submit_tx prims activation now tx c p).0 ≡ err r)
          × ((submit_tx prims activation now tx c p).1 ≡ p))
unfolding add_tx
submit_tx_atomic prims activation now tx c p = elim (submit_tx-cases prims activation now tx c p) [
  | inl (e, f) ↦ inl (
    ap (λ r. r.0) e,
    ap (λ r. r.1.tx_pool) e,
    f.on_chain,
    f.signed,
    f.payload_ok,
    f.unmined,
    f.unpooled,
    f.due,
    f.unrevoked,
  )
  | inr (r, e) ↦ inr (r, ap (λ x. x.0) e, ap (λ x. x.1) e)
]
