-- ===== src/Pool.antt =====
-- The transaction pool: qbit_network/core/tx_pool.py and _drain_pool of core/blockchain.py. Chain is
-- the part of the Blockchain object that admission reads. DYNAMIC_FEE_ACTIVATION_HEIGHT is the
-- parameter `activation`; the clock is the parameter `now`.
pub mod Admission
pub mod Submit
pub mod Drain
pub mod Purge
pub mod Purged
pub mod Lists
pub mod Solvency
pub mod Invariant
pub mod Body
mod Examples
use Prim.Native.String.{◌++◌}
use qbit_network.Common.{
  ℕ, ◌+◌, ◌-◌, String, Bool, true, false, List, [], ◌∷◌, ◌++◌ as ◌+++◌, Option, none, some, ltb,
  leb, ◌&&◌, if◌then◌else◌, str_eq,
}
use qbit_network.Common.Int.{ℤ, pos, negsuc, ◌+ℤ◌}
use qbit_network.Common.Dict.{Dict, put, pop, get_or, string_eq}
use qbit_network.Config.{TxType, initial_base_fee}
use qbit_network.Transaction.{Transaction}
use qbit_network.Ledger.{calc_tx_debit}
use qbit_network.Finance.{Finance}
use qbit_network.Tokens.{Tokens}
use qbit_network.Staking.{member, add_member}
use qbit_network.Blocks.{Block}
use qbit_network.Consensus.Validate.{expected_base_fee}

-- `tx.tx_type.value`
unfoldable pub type_value : TxType → String
type_value TxType.register_key = "REGISTER_KEY"
type_value TxType.register_validator = "REGISTER_VALIDATOR"
type_value TxType.revoke_key = "REVOKE_KEY"
type_value TxType.notarize = "NOTARIZE"
type_value TxType.store = "STORE"
type_value TxType.share = "SHARE"
type_value TxType.stake = "STAKE"
type_value TxType.delegate = "DELEGATE"
type_value TxType.unstake = "UNSTAKE"
type_value TxType.evidence = "EVIDENCE"
type_value TxType.transfer = "TRANSFER"
type_value TxType.issue_token = "ISSUE_TOKEN"
type_value TxType.mint_token = "MINT_TOKEN"
type_value TxType.transfer_token = "TRANSFER_TOKEN"

pub record Pool : Type 0 where
  pub tx_pool : List Transaction
  pub pool_ids : List String
  pub pool_sender_count : Dict String ℕ
  pub pending_debits_cache : Dict String ℤ
  pub pool_type_counts : Dict String ℕ

pub record Chain : Type 0 where
  -- `_height + 1`: the number of blocks
  pub next_height : ℕ
  pub latest_block : Option Block
  pub tx_by_id : List String
  pub sender_nonce : Dict String ℤ
  pub finance : Finance
  pub tokens : Tokens
  pub revoked_keys : List String
  -- the validator of block 0
  pub genesis_validator : Option String

-- `_height >= 0`
abbrev pub has_blocks : Chain → Bool
has_blocks c = ltb 0 c.next_height

unfoldable pub is_key_revoked : String → String → Chain → Bool
is_key_revoked address key_type c = member (address ++ (":" ++ key_type)) c.revoked_keys

-- `get_nonce`
unfoldable pub get_nonce : String → Chain → ℤ
get_nonce address c = get_or address (negsuc 0) c.sender_nonce +ℤ pos 1

-- `_current_base_fee`
unfoldable pub current_base_fee : ℕ → Chain → ℕ
current_base_fee activation c = by_parent c.latest_block
  where
    by_parent : Option Block → ℕ
    by_parent none = initial_base_fee
    by_parent (some parent) = expected_base_fee activation c.next_height parent

-- `_dynamic_active`
abbrev pub dynamic_active : ℕ → Chain → Bool
dynamic_active activation c = leb activation c.next_height && has_blocks c

-- `self._calc_tx_debit(tx, next_block_height=self._height + 1)`
abbrev pub next_debit : ℕ → Chain → Transaction → ℤ
next_debit activation c tx = calc_tx_debit activation (has_blocks c) c.next_height tx

-- The count of the pool's transactions of each type.
unfoldable pub count_type : TxType → Dict String ℕ → Dict String ℕ
count_type t counts = put (type_value t) (get_or (type_value t) 0 counts + 1) counts

-- What submit_tx does with an admitted transaction.
unfoldable pub add_tx : ℕ → Chain → Transaction → Pool → Pool
add_tx activation c tx p = record {
  tx_pool = p.tx_pool +++ (tx ∷ []);
  pool_ids = add_member tx.tx_id p.pool_ids;
  pool_sender_count =
      put tx.sender (get_or tx.sender 0 p.pool_sender_count + 1) p.pool_sender_count;
  pending_debits_cache =
      put tx.sender (get_or tx.sender (pos 0) p.pending_debits_cache +ℤ next_debit activation c tx)
        p.pending_debits_cache;
  pool_type_counts = count_type tx.tx_type p.pool_type_counts;
}
