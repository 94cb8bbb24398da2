-- ===== src/Consensus/ValidBlock.antt =====
-- The guarantees of validate_block for a block after the genesis block.
use qbit_network.Common.{
  ℕ, ◌≤◌, String, Bool, ◌&&◌, List, [], some, ◌≡◌, refl, ltb, leb, ◌==◌, arith, length, All,
  if-false,
}
use qbit_network.Common.Int.{ℤ}
use qbit_network.Common.Dict.{Dict, lookup, string_eq}
use qbit_network.Common.Exec.{accept}
use qbit_network.Config.{max_tx_per_block}
use qbit_network.Transaction.{Primitives}
use qbit_network.Blocks.{Block}
use qbit_network.Consensus.Validate.{Poa, check_txs, next_nonce, validate_child, validate_block}
use qbit_network.Consensus.Accepted.{
  HeaderFacts, FeeRule, check_header_lem, check_fees_lem, check_size_lem,
}
use qbit_network.Consensus.Nonces.{nonces_of, IsRun, check_txs-IsRun}
use qbit_network.Consensus.Transactions.{IsGood, AllApart, check_txs-IsGood}

-- `_dynamic_active`
abbrev pub is_dynamic : ℕ → Block → Bool
is_dynamic activation block = leb activation block.index && ltb 0 block.index

module _ (block_verifies : List ℕ → Block → Bool) (p : Primitives) (seed_int : String → ℕ → ℕ)
    (activation : ℕ) (c : Poa) (now : ℤ) (block parent : Block) where
  -- The last of the checks, and what the earlier ones saw.
  checks_lem :
      validate_block block_verifies p seed_int activation c now block (some parent) ≡ accept
      → 1 ≤ block.index
      → HeaderFacts block_verifies seed_int c now block parent
        × FeeRule (is_dynamic activation block) activation block parent
        × (length block.transactions ≤ max_tx_per_block)
        × (check_txs p c (is_dynamic activation block) block.base_fee block.transactions [] [] []
            ≡ accept)
  unfolding validate_block validate_child
  checks_lem h late =
      let dyn = is_dynamic activation block in
      let child = if-false (block.index == 0) _ _ _ (ground arith) h in
      let (header, a) = check_header_lem block_verifies seed_int c now block parent _ child in
      let (fees, b) = check_fees_lem dyn activation block parent _ a in
      let (few, d) = check_size_lem dyn block.transactions _ b in (header, fees, few, d)

  -- A block after the genesis block that validate_block accepts has the next index and the hash of
  -- its parent, a later time that is at most 30 seconds ahead, a known validator whose key is not
  -- revoked and whose turn it is, and a signature by that key; under dynamic fees it has the base
  -- fee that follows from its parent, a weight within the limit and at most a quarter of the weight
  -- from its validator; it has at most 200 transactions, each signed, for this chain, new to the
  -- chain, with an accepted payload, a cap that covers the base fee if it has a weight, and a sender
  -- whose key is not revoked; and no transaction id is in it twice.
  pub validate_block_guarantees :
      validate_block block_verifies p seed_int activation c now block (some parent) ≡ accept
      → 1 ≤ block.index
      → HeaderFacts block_verifies seed_int c now block parent
        × FeeRule (is_dynamic activation block) activation block parent
        × (length block.transactions ≤ max_tx_per_block)
        × All (IsGood p c (is_dynamic activation block) block.base_fee) block.transactions
        × AllApart block.transactions
  validate_block_guarantees h late =
      let (header, fees, few, rest) = checks_lem h late in
      let (good, apart, _) =
        check_txs-IsGood p c (is_dynamic activation block) block.base_fee block.transactions [] []
          [] rest in
      (header, fees, few, good, apart)

  -- When the chain's nonces are known, the nonces of each sender in a block after the genesis block
  -- that validate_block accepts are consecutive, in the order of the block, from the one after the
  -- sender's last nonce in the chain (from 0 for a new sender).
  pub validate_block-IsRun :
      (chain : Dict String ℤ) (s : String)
      → validate_block block_verifies p seed_int activation c now block (some parent) ≡ accept
      → 1 ≤ block.index
      → c.chain_nonces ≡ some chain
      → IsRun (next_nonce s chain) (nonces_of s block.transactions)
  unfolding lookup
  validate_block-IsRun chain s h late known =
      let (_, _, _, rest) = checks_lem h late in
      (check_txs-IsRun p c (is_dynamic activation block) block.base_fee chain s block.transactions
        [] [] [] rest known refl).0
