-- ===== src/Pool/Examples.antt =====
-- A pool filled by submissions, and drained after a block.
use qbit_network.Common.Dict.{pop}
use qbit_network.Common.Dict.{put}
use qbit_network.Common.{
  ◌≢◌, eq_iff, All, ℕ, String, true, false, not, ◌&&◌, [], ◌∷◌, some, ◌≡◌, refl, arith, ◌⊎◌,
}
use qbit_network.Common.Int.{pos, ◌≤ℤ◌}
use qbit_network.Common.Dict.{lookup, get_or, string_eq}
use qbit_network.Common.Exec.{ok, err, accept}
use qbit_network.Config.{TxType, main_chain_id}
use qbit_network.Transaction.{Transaction, Primitives, Value, verify}
use qbit_network.Payload.Validate.{validate_payload}
use qbit_network.Staking.{member}
use qbit_network.Ledger.{get_balance, pending_debits}
use qbit_network.Ledger.Pending.{pool_debits}
use qbit_network.Finance.{Finance}
use qbit_network.Blocks.{Block}
use qbit_network.Consensus.Validate.{Poa, check_txs}
use qbit_network.Consensus.Transactions.{AllApart}
use qbit_network.Pool.{Pool, Chain, next_debit, dynamic_active, current_base_fee, is_key_revoked}
use qbit_network.Pool.Admission.{Rejection}
use qbit_network.Pool.Lists.{in_pool}
use qbit_network.Pool.Submit.{submit_tx, due_nonce}
use qbit_network.Pool.Invariant.{IsSound, submit_tx-IsSound, submit_tx_atomic}
use qbit_network.Pool.Body.{empty_pool, submit_all, Agrees, empty-IsSound, check_txs-submit_all}
use qbit_network.Consensus.Nonces.{nonces_of}
use qbit_network.Pool.Purge.{purge_sender}
use qbit_network.Pool.Purged.{purge_sender-IsSound}
use qbit_network.Pool.Drain.{drain_pool, drain_pool_lem, ids_of, of_type}

abbrev primitives : Primitives
primitives = record {
  json_size = λ d. 40;
  signable_bytes = λ tx. 7 ∷ [];
  sha3_hex = λ bytes. "ab";
  derive_address = λ key. "alice";
  mldsa_verify = λ key message signature. true;
}

abbrev stake_with : ℕ → String → Transaction
stake_with nonce id = record {
  tx_type = TxType.stake;
  sender = "alice";
  recipient = "";
  timestamp = pos 100;
  payload = ("amount", Value.int (pos 5)) ∷ ("validator_address", Value.text "val") ∷ [];
  signature = 1 ∷ [];
  sender_pubkey = 2 ∷ [];
  nonce = pos nonce;
  chain_id = "qbit-mainnet";
  max_fee_per_weight = 12;
  max_priority_fee = 1;
  tx_id = id;
}

abbrev genesis : Block
genesis = record {
  index = 0;
  prev_hash = "";
  transactions = [];
  validator = "val";
  timestamp = pos 100;
  base_fee = 10;
  state_root = "";
  receipts_root = "";
  block_hash = "genesis";
}

abbrev finance : Finance
finance = record {
  ledger = record {
    balances = ("alice", pos 90_000_000) ∷ [];
    total_minted = pos 90_000_000;
    total_burned = pos 0;
    financial_active = true;
  };
  staking = record {
    stakes = [];
    total_stake = [];
    unbonding = [];
    current_epoch = 0;
    epoch_validators = [];
    epochs = [];
    slashed_validators = [];
    slashing_events = [];
    processed_evidence = [];
    epoch_rewards = [];
    validator_commission = [];
    last_epoch_distributions = [];
    validator_registry = ("val", 3 ∷ []) ∷ [];
    consensus_validators = [];
  };
}

abbrev chain : Chain
chain = record {
  next_height = 1;
  latest_block = some genesis;
  tx_by_id = "w" ∷ [];
  sender_nonce = ("alice", pos 3) ∷ [];
  finance = finance;
  tokens = record {
    registry = [];
    balances = [];
    by_symbol = [];
    holders_by_token = [];
    tokens_by_address = [];
  };
  revoked_keys = [];
  genesis_validator = some "val";
}

rich : (s : String) → pos 0 ≤ℤ get_balance s finance.ledger
unfolding get_balance lookup
rich s = ground arith

submit_tx-IsSound_example :
    IsSound 0 chain (submit_tx primitives 0 (pos 110) (stake_with 4 "x") chain empty_pool).1
submit_tx-IsSound_example =
    submit_tx-IsSound primitives 0 (pos 110) (stake_with 4 "x") chain empty_pool
      (empty-IsSound primitives 0 chain rich)

submit_tx_atomic_example :
    let r = submit_tx primitives 0 (pos 110) (stake_with 4 "x") chain empty_pool in
    ((r.0 ≡ ok "x")
      × (r.1.tx_pool ≡ stake_with 4 "x" ∷ [])
      × ((stake_with 4 "x").chain_id ≡ main_chain_id)
      × (verify primitives (stake_with 4 "x") ≡ true)
      × (validate_payload primitives (stake_with 4 "x") ≡ accept)
      × (member "x" chain.tx_by_id ≡ false)
      × (member "x" [] ≡ false)
      × (pos 4 ≡ due_nonce "alice" chain empty_pool)
      × (is_key_revoked "alice" "signing" chain ≡ false))
    ⊎ ((e : Rejection) × (r.0 ≡ err e) × (r.1 ≡ empty_pool))
submit_tx_atomic_example =
    submit_tx_atomic primitives 0 (pos 110) (stake_with 4 "x") chain empty_pool

abbrev poa : Poa
poa = record {
  validators = ("val", 3 ∷ []) ∷ [];
  genesis_hash = "genesis";
  chain_nonces = some (("alice", pos 3) ∷ []);
  chain_tx_ids = some ("w" ∷ []);
  revoked_keys = some [];
  active_validators = [];
}

agrees : Agrees poa chain
agrees = record { nonces = refl; mined = refl; revoked = refl }

check_txs-submit_all_example :
    check_txs primitives poa
      (dynamic_active 0 chain)
      (current_base_fee 0 chain)
      (submit_all primitives 0
        (pos 110)
        (stake_with 4 "x" ∷ stake_with 4 "y" ∷ [])
        chain
        empty_pool).tx_pool
      []
      []
      []
    ≡ accept
check_txs-submit_all_example =
    check_txs-submit_all primitives 0 chain poa agrees (pos 110)
      (stake_with 4 "x" ∷ stake_with 4 "y" ∷ []) rich

abbrev two : Pool
two = record {
  tx_pool = stake_with 4 "x" ∷ stake_with 5 "y" ∷ [];
  pool_ids = "x" ∷ "y" ∷ [];
  pool_sender_count = ("alice", 2) ∷ [];
  pending_debits_cache = [];
  pool_type_counts = [];
}

two_ids : (id : String) → member id two.pool_ids ≡ in_pool id two.tx_pool
unfolding member
two_ids id = ground arith

apart : All (λ u. u.tx_id ≢ "x") (stake_with 5 "y" ∷ [])
apart = (λ e. let clash = (eq_iff "y" "x").1 e in cc, tt)

drain_pool_lem_example :
    let q = drain_pool 0 chain (stake_with 4 "x" ∷ []) two in
    ((id : String)
      → in_pool id q.tx_pool
        ≡ in_pool id two.tx_pool && not (member id (ids_of (stake_with 4 "x" ∷ []))))
    × ((id : String) → member id q.pool_ids ≡ in_pool id q.tx_pool)
    × AllApart q.tx_pool
    × ((k : String) → get_or k 0 q.pool_type_counts ≡ of_type k q.tx_pool)
    × ((s : String)
        → pending_debits s q.pending_debits_cache ≡ pool_debits (next_debit 0 chain) s q.tx_pool)
drain_pool_lem_example =
    drain_pool_lem 0 chain (stake_with 4 "x" ∷ []) two two_ids (apart, (tt, tt))

-- A block with another transaction of the same nonce: the one in the pool stays, and is counted no
-- more.
stale_stays :
    let q =
      drain_pool 0 chain
        (stake_with 4 "other" ∷ [])
        (record two { tx_pool = stake_with 4 "x" ∷ []; pool_sender_count = ("alice", 1) ∷ [] }) in
    (q.tx_pool ≡ stake_with 4 "x" ∷ []) × (get_or "alice" 0 q.pool_sender_count ≡ 0)
unfolding drain_pool lookup member put pop
stale_stays = (refl, refl)

-- After an admitted submission the key of the sender is revoked.
abbrev filled : Pool
filled = (submit_tx primitives 0 (pos 110) (stake_with 4 "x") chain empty_pool).1

filled-IsSound : IsSound 0 chain filled
filled-IsSound =
    submit_tx-IsSound primitives 0 (pos 110) (stake_with 4 "x") chain empty_pool
      (empty-IsSound primitives 0 chain rich)

purge_sender-IsSound_example :
    IsSound 0 chain (purge_sender "alice" filled)
    × (nonces_of "alice" (purge_sender "alice" filled).tx_pool ≡ [])
purge_sender-IsSound_example = purge_sender-IsSound 0 chain "alice" filled filled-IsSound rich
