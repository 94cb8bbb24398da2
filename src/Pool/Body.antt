-- ===== src/Pool/Body.antt =====
-- A pool that submissions filled, as the body of the next block.
use mathlib.Core.Path.{subst}
use Prim.Native.String.{◌++◌}
use qbit_network.Common.{
  ℕ, String, false, List, [], ◌∷◌, some, ◌≡◌, refl, sym, arith, All, inl, inr,
}
use qbit_network.Common.Int.{ℤ, pos, ◌≤ℤ◌}
use qbit_network.Common.Dict.{lookup, string_eq}
use qbit_network.Common.Exec.{accept}
use qbit_network.Config.{tx_weights}
use qbit_network.Transaction.{Transaction, Primitives}
use qbit_network.Fees.{tx_weight}
use qbit_network.Staking.{member}
use qbit_network.Ledger.{get_balance, pending_debits}
use qbit_network.Consensus.Validate.{Poa, in_option, signing_revoked, check_txs}
use qbit_network.Consensus.Transactions.{IsGood, covers}
use qbit_network.Consensus.Complete.{Goes, check_txs_passes}
use qbit_network.Pool.{
  Pool, Chain, dynamic_active, current_base_fee, is_key_revoked, get_nonce, add_tx,
}
use qbit_network.Pool.Lists.{All-append}
use qbit_network.Pool.Submit.{Facts, submit_tx, submit_tx-cases}
use qbit_network.Pool.Invariant.{IsSound, submit_tx-IsSound}

abbrev pub empty_pool : Pool
empty_pool = record {
  tx_pool = [];
  pool_ids = [];
  pool_sender_count = [];
  pending_debits_cache = [];
  pool_type_counts = [];
}

-- Submissions in a row while the chain stays as it is.
unfoldable pub submit_all : Primitives → ℕ → ℤ → List Transaction → Chain → Pool → Pool
submit_all prims activation now [] c p = p
submit_all prims activation now (tx ∷ txs) c p =
    submit_all prims activation now txs c (submit_tx prims activation now tx c p).1

-- The consensus object sees the chain's nonces, transactions and revoked keys.
pub record Agrees (poa : Poa) (c : Chain) : Type 0 where
  pub nonces : poa.chain_nonces ≡ some c.sender_nonce
  pub mined : poa.chain_tx_ids ≡ some c.tx_by_id
  pub revoked : poa.revoked_keys ≡ some c.revoked_keys

module _ (prims : Primitives) (activation : ℕ) (c : Chain) where
  pub empty-IsSound :
      ((s : String) → pos 0 ≤ℤ get_balance s c.finance.ledger) → IsSound activation c empty_pool
  unfolding pending_debits lookup member
  empty-IsSound rich = record {
    within = omega arith;
    apart = tt;
    counts_distinct = tt;
    cache_distinct = tt;
    ids = λ id. refl;
    counts = λ s. refl;
    in_order = λ s. tt;
    debits = λ s. refl;
    solvent = inr rich;
  }

  module _ (poa : Poa) (agrees : Agrees poa c) where
    abbrev IsReady : Transaction → Type 0
    IsReady tx = IsGood prims poa (dynamic_active activation c) (current_base_fee activation c) tx

    Facts-IsReady : (tx : Transaction) (p : Pool) → Facts prims activation tx c p → IsReady tx
    unfolding signing_revoked is_key_revoked tx_weight
    Facts-IsReady tx p facts = record {
      signed = facts.signed;
      on_chain = facts.on_chain;
      fresh = subst (λ o. in_option tx.tx_id o ≡ false) (sym agrees.mined) facts.unmined;
      payload_ok = facts.payload_ok;
      covers_fee =
          covers (dynamic_active activation c) (tx_weights tx.tx_type) tx.max_fee_per_weight
            (current_base_fee activation c) facts.fee_ok;
      unrevoked =
          subst (λ o. in_option (tx.sender ++ ":signing") o ≡ false) (sym agrees.revoked)
            facts.unrevoked;
    }

    submit_tx-IsReady :
        (now : ℤ) (tx : Transaction) (p : Pool)
        → All IsReady p.tx_pool
        → All IsReady (submit_tx prims activation now tx c p).1.tx_pool
    unfolding add_tx
    submit_tx-IsReady now tx p ready = elim (submit_tx-cases prims activation now tx c p) [
      | inl (e, facts) ↦
          subst (λ r. All IsReady r.1.tx_pool) (sym e)
            (All-append IsReady p.tx_pool tx ready (Facts-IsReady tx p facts))
      | inr (r, e) ↦ subst (λ r. All IsReady r.1.tx_pool) (sym e) ready
    ]

    submit_all-keeps :
        (now : ℤ) (txs : List Transaction) (p : Pool)
        → IsSound activation c p
        → All IsReady p.tx_pool
        → IsSound activation c (submit_all prims activation now txs c p)
          × All IsReady (submit_all prims activation now txs c p).tx_pool
    unfolding submit_all
    submit_all-keeps now [] p inv ready = (inv, ready)
    submit_all-keeps now (tx ∷ txs) p inv ready =
        submit_all-keeps now txs (submit_tx prims activation now tx c p).1
          (submit_tx-IsSound prims activation now tx c p inv) (submit_tx-IsReady now tx p ready)

    Goes-from_chain :
        (p : Pool) (s : String) → IsSound activation c p → Goes c.sender_nonce [] [] s p.tx_pool
    unfolding lookup get_nonce
    Goes-from_chain p s inv = record { run = inv.in_order s; starts = tt; both = refl }

    -- With no negative balance, whatever transactions are submitted to an empty pool one after the
    -- other, and whichever of them are admitted: the pool as a whole passes the loop of
    -- validate_block over the transactions of a next block with the current base fee, if the
    -- consensus object sees the nonces, transactions and revoked keys of the chain.
    pub check_txs-submit_all :
        (now : ℤ) (txs : List Transaction)
        → ((s : String) → pos 0 ≤ℤ get_balance s c.finance.ledger)
        → check_txs prims poa
            (dynamic_active activation c)
            (current_base_fee activation c)
            (submit_all prims activation now txs c empty_pool).tx_pool
            []
            []
            []
          ≡ accept
    unfolding member
    check_txs-submit_all now txs rich =
        let p = submit_all prims activation now txs c empty_pool in
        let (inv, ready) = submit_all-keeps now txs empty_pool (empty-IsSound rich) tt in
        check_txs_passes prims poa (dynamic_active activation c) (current_base_fee activation c)
          c.sender_nonce p.tx_pool [] [] [] agrees.nonces ready inv.apart (nothing_seen p.tx_pool)
          (λ s. Goes-from_chain p s inv)
      where
        nothing_seen : (l : List Transaction) → All (λ u. member u.tx_id [] ≡ false) l
        nothing_seen [] = tt
        nothing_seen (u ∷ l) = (refl, nothing_seen l)
