-- ===== src/Lib.antt =====
-- The core of Qbit-Network, a post-quantum proof-of-authority / delegated proof-of-stake chain in
-- Python (qbit_network/). The chain is one object, Blockchain, put together from mixins: the ledger
-- (core/ledger.py) keeps balances and supply, staking (core/staking.py) keeps stakes, epochs and
-- slashing and moves rewards through the ledger, the block processing of core/blockchain.py applies
-- fees, transfers, stakes and rewards, and core/rollback.py takes them back. The Merkle tree of
-- crypto/hashing.py commits to transactions, receipts and state, and the fee rule of core/fees.py
-- links the fee of a block to the weight of its parent.
--
-- Where each part is:
-- Common and its children: tests, integers, lists, dicts (association lists), the state-and-error
-- monad Exec (a Python method that may raise ValueError, with the state it leaves in both cases),
-- and bytes.fromhex.
-- Config: qbit_network/config.py, the protocol constants and the fee tables.
-- Transaction: core/transaction.py, a transaction with its payload of JSON values.
-- Fees: core/fees.py (tx_weight, effective_block_weight, block_total_weight, compute_base_fee,
-- compute_tx_fee).
-- Merkle: crypto/hashing.py (_merkle_node, merkle_root, merkle_proof, verify_merkle_proof), over any
-- hash function. The while loops run on fuel, the length of the list, which is enough: a round
-- halves a list of two or more.
-- Ledger: core/ledger.py. Each function has the name of the method without its underscore.
-- Finance: the state that ledger, staking and rollback share, and the sum that _rollback_to_inner
-- compares.
-- Staking, Staking/Slashing, Staking/Epochs: core/staking.py and the staking branches of
-- _append_block_inner (core/blockchain.py) and of _rollback_block (core/rollback.py).
-- Blocks: _append_block_inner on balances and stakes (charge_fee, move_by, apply_staking, pay_reward,
-- composed by append_block after the mature unbondings and the epoch transition). Blocks/Rollback:
-- the reversal of balances and of staking in _rollback_block. DYNAMIC_FEE_ACTIVATION_HEIGHT is a
-- parameter.
-- Tokens, Tokens/Rollback: the token branches of _append_block_inner and _rollback_block, and
-- _update_token_index.
-- StateTrie: core/state_tree.py, with its cached root (StateTrie/Cache) and its inclusion proofs
-- (StateTrie/Proofs, over the ascending texts of Common/Sorted).
-- Payload: Transaction.validate_payload of core/transaction.py (validate_with for any recipient).
-- Documents, Keys, Amounts, Evidence and Issue hold the branches, Validate the frame. A chain of early returns is a chain of refuse_if; an
-- exception that leaves the method is a value of the same type as the refusals.
-- Consensus: the registry and the choice of the validator in core/consensus.py (Consensus/Selection by
-- stake, Consensus/Turn in turn); Consensus/Validate is validate_block, with the same chain of checks.
-- Pool: core/tx_pool.py and _drain_pool of core/blockchain.py. Pool/Admission and Pool/Submit hold
-- submit_tx, Pool/Drain the removal of mined transactions, Pool/Purge that of a revoked sender's (from
-- _append_block_inner); Pool/Body relates the pool to the check of
-- blocks (Consensus/Complete).
-- Receipts: core/receipt.py and core/receipt_ops.py. Receipts/Events holds _build_tx_events,
-- Receipts/Record the receipts that _append_block_inner generates, their rollback and
-- get_receipt_proof (core/query.py), Receipts/Query get_events.
-- Finality: _update_finality of core/receipt_ops.py, and the lines of _rollback_block that lower the
-- final height.
-- Header, Header/Dicts: core/block.py, a block with its header bytes, hash, signature, proofs and dict.
-- A text in hex is the list of its code points.
-- Notary, Notary/Verify: core/proof.py (export_proof, verify_proof).
-- HeaderChain: validate_header_chain of core/blockchain.py.
-- Codec, Codec/Wire: network/codec.py and _read_message of network/p2p.py, on the bytes that a
-- connection still holds. A line over the 10 MB limit of the reader raises ValueError there.
-- RateLimiter: network/rate_limiter.py, and Reputation: network/reputation.py, over any floats with the
-- operations that they use.
-- Blocks/Validated and Consensus/ValidBlock join these parts: what processing does to transactions that
-- were validated, and what holds of a block that was.
--
-- A dict is an association list. Where a theorem adds up balances it asks that no address is listed
-- twice, which holds of every Python dict and which the operations keep.
-- Integers: Python integers are ℤ where they can be negative (amounts of a payload, balances in a
-- rollback) and native numbers where the code keeps them at zero or more.
--
-- Not modelled: SQLite persistence (the model is a chain without a data directory), the sockets and
-- tasks of the network but the reader of messages, RPC and REST, wallets, and the cryptographic
-- libraries, which are parameters of the definitions that
-- call them. Logging is left out everywhere.
pub mod Blocks
pub mod Codec
pub mod Common
pub mod Config
pub mod Consensus
pub mod Fees
pub mod Finality
pub mod Finance
pub mod Header
pub mod HeaderChain
pub mod Ledger
pub mod Merkle
pub mod Notary
pub mod Payload
pub mod Pool
pub mod RateLimiter
pub mod Receipts
pub mod Reputation
pub mod Staking
pub mod StateTrie
pub mod Tokens
pub mod Transaction
