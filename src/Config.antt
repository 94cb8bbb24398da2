-- ===== src/Config.antt =====
-- qbit_network/config.py: the protocol's constants. The two fee tables are functions of the
-- transaction type. DYNAMIC_FEE_ACTIVATION_HEIGHT is read from the environment: it is a parameter
-- where the code reads it.
use qbit_network.Common.{ℕ, String, ◌+◌, ◌*◌, ◌/◌, ◌^◌}
use Prim.Native.Nat.{◌-◌}

-- The members of the enum TxType (core/transaction.py).
pub data TxType : Type 0 where
  register_key register_validator revoke_key notarize store share : TxType
  stake delegate unstake evidence transfer : TxType
  issue_token mint_token transfer_token : TxType

abbrev pub main_chain_id : String
main_chain_id = "qbit-mainnet"

abbrev pub max_tx_per_block : ℕ
max_tx_per_block = 200

abbrev pub max_block_size : ℕ
max_block_size = 5 * 1024 * 1024

abbrev pub max_tx_payload_size : ℕ
max_tx_payload_size = 8192

-- _MAX_TX_WIRE_SIZE (core/consensus.py): the fields, the payload, and signature and key in hex.
abbrev pub max_tx_wire_size : ℕ
max_tx_wire_size = 200 + max_tx_payload_size + 3309 * 2 + 1952 * 2

abbrev pub evidence_max_payload : ℕ
evidence_max_payload = 32768

abbrev pub max_token_name_length : ℕ
max_token_name_length = 64

abbrev pub max_token_symbol_length : ℕ
max_token_symbol_length = 8

abbrev pub min_token_symbol_length : ℕ
min_token_symbol_length = 2

abbrev pub max_token_decimals : ℕ
max_token_decimals = 18

abbrev pub max_tx_pool_size : ℕ
max_tx_pool_size = 10_000

abbrev pub max_block_drift : ℕ
max_block_drift = 30

abbrev pub block_interval : ℕ
block_interval = 5

abbrev pub max_reorg_depth : ℕ
max_reorg_depth = 32

abbrev pub min_stake : ℕ
min_stake = 1

abbrev pub max_stake : ℕ
max_stake = 1_000_000

abbrev pub unbonding_period : ℕ
unbonding_period = 100

abbrev pub epoch_length : ℕ
epoch_length = 100

abbrev pub slash_percentage : ℕ
slash_percentage = 50

abbrev pub default_commission_rate : ℕ
default_commission_rate = 10

abbrev pub qubit_per_qbit : ℕ
qubit_per_qbit = 10 ^ 9

abbrev pub max_supply : ℕ
max_supply = 21_000_000 * qubit_per_qbit

abbrev pub max_tx_amount : ℕ
max_tx_amount = 2 ^ 63 - 1

abbrev pub initial_block_reward : ℕ
initial_block_reward = 5 * qubit_per_qbit

abbrev pub halving_interval : ℕ
halving_interval = 2_100_000

-- TX_FEES
unfoldable pub tx_fees : TxType → ℕ
tx_fees TxType.transfer = 1_000_000
tx_fees TxType.notarize = 10_000_000
tx_fees TxType.store = 20_000_000
tx_fees TxType.share = 10_000_000
tx_fees TxType.register_key = 100_000_000
tx_fees TxType.register_validator = 1_000_000_000
tx_fees TxType.stake = 10_000_000
tx_fees TxType.delegate = 10_000_000
tx_fees TxType.unstake = 10_000_000
tx_fees TxType.revoke_key = 0
tx_fees TxType.evidence = 0
tx_fees TxType.issue_token = 500_000_000
tx_fees TxType.mint_token = 10_000_000
tx_fees TxType.transfer_token = 1_000_000

-- TX_WEIGHTS
unfoldable pub tx_weights : TxType → ℕ
tx_weights TxType.transfer = 100_000
tx_weights TxType.notarize = 1_000_000
tx_weights TxType.store = 2_000_000
tx_weights TxType.share = 1_000_000
tx_weights TxType.register_key = 10_000_000
tx_weights TxType.register_validator = 100_000_000
tx_weights TxType.stake = 1_000_000
tx_weights TxType.delegate = 1_000_000
tx_weights TxType.unstake = 1_000_000
tx_weights TxType.revoke_key = 0
tx_weights TxType.evidence = 0
tx_weights TxType.issue_token = 50_000_000
tx_weights TxType.mint_token = 1_000_000
tx_weights TxType.transfer_token = 100_000

abbrev pub max_block_weight : ℕ
max_block_weight = 20_000_000

abbrev pub target_block_weight : ℕ
target_block_weight = max_block_weight / 2

abbrev pub base_fee_change_denom : ℕ
base_fee_change_denom = 8

abbrev pub initial_base_fee : ℕ
initial_base_fee = 10

abbrev pub min_base_fee : ℕ
min_base_fee = 1

abbrev pub max_base_fee : ℕ
max_base_fee = 10_000

abbrev pub max_self_tx_weight_ratio : ℕ
max_self_tx_weight_ratio = 25

abbrev pub token_activation_height : ℕ
token_activation_height = 0

abbrev pub genesis_balance_qbit : ℕ
genesis_balance_qbit = 2_100_000
