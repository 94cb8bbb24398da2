-- ===== src/Pool/Lists.antt =====
-- The list of the pool after one more transaction.
use qbit_network.Common.{
  ℕ, suc, String, Bool, false, ◌||◌, List, [], ◌∷◌, ◌++◌, ◌≡◌, ◌≢◌, refl, ◌∙◌, str_eq, eq_iff,
  length, arith, All, if◌then◌else◌,
}
use qbit_network.Common.Int.{ℤ, pos, ◌+ℤ◌, int_laws}
use qbit_network.Transaction.{Transaction}
use qbit_network.Staking.{member, add_member}
use qbit_network.Ledger.Pending.{pool_debits}
use qbit_network.Consensus.Nonces.{nonces_of, IsRun}
use qbit_network.Consensus.Transactions.{AllApart}

-- The transaction with this id is in the pool.
abbrev pub in_pool : String → List Transaction → Bool
in_pool id [] = false
in_pool id (tx ∷ txs) = str_eq tx.tx_id id || in_pool id txs

pub in_pool-append :
    (id : String) (txs : List Transaction) (tx : Transaction)
    → in_pool id (txs ++ (tx ∷ [])) ≡ str_eq tx.tx_id id || in_pool id txs
in_pool-append id [] tx = refl
in_pool-append id (u ∷ txs) tx = ground (arith, in_pool-append id txs tx)

pub member-add_member :
    (x y : String) (l : List String) → member x (add_member y l) ≡ str_eq y x || member x l
unfolding member add_member
member-add_member x y l = ground (arith, eq_iff y x)

pub nonces_of-append :
    (s : String) (txs : List Transaction) (tx : Transaction)
    → nonces_of s (txs ++ (tx ∷ []))
      ≡ (if str_eq tx.sender s then nonces_of s txs ++ (tx.nonce ∷ []) else nonces_of s txs)
nonces_of-append s [] tx = refl
nonces_of-append s (u ∷ txs) tx = ground (arith, nonces_of-append s txs tx)

-- One more number continues a run if it is the next.
pub append-IsRun :
    (start n : ℤ) (l : List ℤ)
    → IsRun start l
    → n ≡ start +ℤ pos (length l)
    → IsRun start (l ++ (n ∷ []))
append-IsRun start n [] run next = (next ∙ omega int_laws, tt)
append-IsRun start n (m ∷ l) run next =
    (run.0, append-IsRun (start +ℤ pos 1) n l run.1 (next ∙ shift start (length l)))
  where
    shift : (a : ℤ) (k : ℕ) → a +ℤ pos (suc k) ≡ a +ℤ pos 1 +ℤ pos k
    shift a k = omega int_laws

pub pool_debits-append :
    (debit_of : Transaction → ℤ) (s : String) (txs : List Transaction) (tx : Transaction)
    → pool_debits debit_of s (txs ++ (tx ∷ []))
      ≡ pool_debits debit_of s txs +ℤ (if str_eq tx.sender s then debit_of tx else pos 0)
pool_debits-append debit_of s [] tx = omega int_laws
pool_debits-append debit_of s (u ∷ txs) tx = grind (int_laws, pool_debits-append debit_of s txs tx)

pub All-append {κ} :
    (P : Transaction → Type κ) (txs : List Transaction) (tx : Transaction)
    → All P txs
    → P tx
    → All P (txs ++ (tx ∷ []))
All-append P [] tx h p = (p, tt)
All-append P (u ∷ txs) tx h p = (h.0, All-append P txs tx h.1 p)

-- A transaction with a new id leaves all ids apart.
pub append-AllApart :
    (txs : List Transaction) (tx : Transaction)
    → AllApart txs
    → in_pool tx.tx_id txs ≡ false
    → AllApart (txs ++ (tx ∷ []))
append-AllApart [] tx h new = (tt, tt)
append-AllApart (u ∷ txs) tx h new = (
  All-append (λ v. v.tx_id ≢ u.tx_id) txs tx h.0 (λ e. ground (arith, eq_iff u.tx_id tx.tx_id)),
  append-AllApart txs tx h.1 (ground arith),
)
