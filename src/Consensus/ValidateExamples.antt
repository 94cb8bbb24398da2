-- ===== src/Consensus/ValidateExamples.antt =====
-- A block that validate_block accepts, and its guarantees.
use qbit_network.Common.Dict.{lookup}
use qbit_network.Common.{
  ℕ, ◌≤◌, String, Bool, true, List, [], ◌∷◌, some, ◌≡◌, refl, arith, length, All,
}
use qbit_network.Common.Sorted.{sorted, insert_text}
use qbit_network.Fees.{block_total_weight}
use qbit_network.Staking.{member}
use qbit_network.Payload.Validate.{
  validate_payload, allowed_keys, has_extra_keys, guard_amounts, check_by,
}
use qbit_network.Payload.Amounts.{check_stake}
use qbit_network.Consensus.{is_validator, select_validator, select_poa, select_with_skip}
use qbit_network.Consensus.Validate.{
  expected_base_fee, self_weight, check_starts, check_txs, check_tx, signing_revoked,
}
use qbit_network.Common.Int.{pos, ◌+ℤ◌, ◌-ℤ◌}
use qbit_network.Common.Dict.{Distinct, lookup, put, string_eq}
use qbit_network.Common.Exec.{accept, err, Outcome}
use qbit_network.Config.{TxType, max_tx_per_block, tx_weights}
use qbit_network.Transaction.{Transaction, Primitives, Value, verify}
use qbit_network.Finance.{Finance}
use qbit_network.Blocks.{Block, apply_txs}
use qbit_network.Blocks.Validated.{IsAccepted, apply_txs_conserves}
use qbit_network.Finance.{supply_invariant}
use qbit_network.Consensus.Validate.{Poa, Invalid, validate_block, next_nonce}
use qbit_network.Consensus.Accepted.{HeaderFacts, FeeRule}
use qbit_network.Consensus.Nonces.{nonces_of, IsRun}
use qbit_network.Consensus.Transactions.{IsGood, AllApart}
use qbit_network.Consensus.ValidBlock.{is_dynamic, validate_block_guarantees, validate_block-IsRun}

abbrev primitives : Primitives
primitives = record {
  json_size = λ d. 40;
  signable_bytes = λ tx. 7 ∷ [];
  sha3_hex = λ bytes. "ab";
  derive_address = λ key. "alice";
  mldsa_verify = λ key message signature. true;
}

abbrev tx_with : ℕ → String → Transaction
tx_with nonce id = record {
  tx_type = TxType.stake;
  sender = "alice";
  recipient = "";
  timestamp = pos 1;
  payload = ("amount", Value.int (pos 5)) ∷ ("validator_address", Value.text "val") ∷ [];
  signature = 1 ∷ [];
  sender_pubkey = 2 ∷ [];
  nonce = pos nonce;
  chain_id = "qbit-mainnet";
  max_fee_per_weight = 12;
  max_priority_fee = 1;
  tx_id = id;
}

abbrev genesis : Block
genesis = record {
  index = 0;
  prev_hash = "";
  transactions = [];
  validator = "val";
  timestamp = pos 100;
  base_fee = 10;
  state_root = "";
  receipts_root = "";
  block_hash = "genesis";
}

abbrev block : Block
block = record {
  index = 1;
  prev_hash = "genesis";
  transactions = tx_with 4 "x" ∷ tx_with 5 "y" ∷ [];
  validator = "val";
  timestamp = pos 105;
  base_fee = 10;
  state_root = "";
  receipts_root = "";
  block_hash = "block";
}

abbrev poa : Poa
poa = record {
  validators = ("val", 9 ∷ []) ∷ [];
  genesis_hash = "genesis";
  chain_nonces = some (("alice", pos 3) ∷ []);
  chain_tx_ids = some ("w" ∷ []);
  revoked_keys = some ("carol:signing" ∷ []);
  active_validators = [];
}

abbrev signed_by_key : List ℕ → Block → Bool
signed_by_key key b = true

abbrev seed : String → ℕ → ℕ
seed parent_hash index = 0

block_accepted :
    validate_block signed_by_key primitives seed 0 poa (pos 110) block (some genesis) ≡ accept
unfolding validate_block ◌+ℤ◌ is_validator lookup member select_validator select_poa
    select_with_skip sorted insert_text ◌-ℤ◌ expected_base_fee block_total_weight tx_weights
    self_weight verify validate_payload put check_starts check_stake allowed_keys has_extra_keys
    guard_amounts check_by check_txs check_tx signing_revoked
block_accepted = refl

-- The second transaction repeats the nonce of the first.
repeated_nonce :
    validate_block signed_by_key primitives seed 0 poa
      (pos 110)
      (record block { transactions = tx_with 4 "x" ∷ tx_with 4 "y" ∷ [] })
      (some genesis)
    ≡ err Invalid.nonce_gap
unfolding validate_block ◌+ℤ◌ is_validator lookup member select_validator select_poa
    select_with_skip sorted insert_text ◌-ℤ◌ expected_base_fee block_total_weight tx_weights
    self_weight verify validate_payload put check_starts check_stake allowed_keys has_extra_keys
    guard_amounts check_by check_txs check_tx signing_revoked
repeated_nonce = refl

validate_block_guarantees_example :
    HeaderFacts signed_by_key seed poa (pos 110) block genesis
    × FeeRule (is_dynamic 0 block) 0 block genesis
    × (length block.transactions ≤ max_tx_per_block)
    × All (IsGood primitives poa (is_dynamic 0 block) 10) block.transactions
    × AllApart block.transactions
validate_block_guarantees_example =
    validate_block_guarantees signed_by_key primitives seed 0 poa (pos 110) block genesis
      block_accepted (omega arith)

validate_block-IsRun_example :
    IsRun (next_nonce "alice" (("alice", pos 3) ∷ [])) (nonces_of "alice" block.transactions)
validate_block-IsRun_example =
    validate_block-IsRun signed_by_key primitives seed 0 poa (pos 110) block genesis
      (("alice", pos 3) ∷ []) "alice" block_accepted (omega arith) refl

abbrev finance : Finance
finance = record {
  ledger = record {
    balances = ("alice", pos 90_000_000) ∷ ("val", pos 30) ∷ [];
    total_minted = pos 90_000_030;
    total_burned = pos 0;
    financial_active = true;
  };
  staking = record {
    stakes = [];
    total_stake = [];
    unbonding = [];
    current_epoch = 0;
    epoch_validators = [];
    epochs = [];
    slashed_validators = [];
    slashing_events = [];
    processed_evidence = [];
    epoch_rewards = [];
    validator_commission = [];
    last_epoch_distributions = [];
    validator_registry = [];
    consensus_validators = [];
  };
}

distinct : Distinct finance.ledger.balances
unfolding lookup
distinct = (refl, (refl, tt))

payloads-IsAccepted : All (IsAccepted primitives) block.transactions
unfolding validate_payload member allowed_keys lookup check_stake
payloads-IsAccepted = (refl, (refl, tt))

apply_txs_conserves_example :
    Outcome
      (λ _ f'. supply_invariant f' ≡ supply_invariant finance)
      (λ e f'. Unit {0})
      (apply_txs primitives.mldsa_verify true block 1 block.transactions finance)
apply_txs_conserves_example =
    apply_txs_conserves primitives true block 1 block.transactions finance refl refl distinct
      payloads-IsAccepted (refl, (refl, tt))
