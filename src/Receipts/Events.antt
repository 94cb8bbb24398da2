-- ===== src/Receipts/Events.antt =====
-- `_build_tx_events` of qbit_network/core/receipt_ops.py: the events of a transaction, by its type.
-- The identifier of a token, a cut SHA3-256 digest of sender, symbol and nonce, is the parameter
-- `token_id`.
use qbit_network.Common.{ℕ, String, List, [], ◌∷◌, Option, none, some}
use qbit_network.Common.Dict.{Dict, lookup, get_or, string_eq}
use qbit_network.Common.Int.{ℤ, pos}
use qbit_network.Config.{TxType}
use qbit_network.Receipts.{Event, build_event}
use qbit_network.Staking.Slashing.{slash_of}
use qbit_network.Tokens.{Token}
use qbit_network.Transaction.{Transaction, Value, text, int, get_text}

-- `tx.payload.get(k, "")` and `tx.payload.get(k, 0)`
abbrev pub text_field : String → Transaction → Value
text_field k tx = get_or k (text "") tx.payload

abbrev pub int_field : String → Transaction → Value
int_field k tx = get_or k (int (pos 0)) tx.payload

abbrev pub minted_of : Option Token → ℤ
minted_of none = pos 0
minted_of (some t) = t.total_minted

module _ (token_id : Transaction → String) (total_stake : Dict String ℕ)
    (registry : Dict String Token) where
  unfoldable pub events_by : TxType → Transaction → List Event
  events_by TxType.transfer tx =
      build_event "Transfer" (
        ("sender", text tx.sender)
        ∷ ("recipient", text tx.recipient)
        ∷ ("amount", int_field "amount" tx)
        ∷ [])
      ∷ []
  events_by TxType.notarize tx =
      build_event "Notarize"
        (("sender", text tx.sender) ∷ ("documentHash", text_field "documentHash" tx) ∷ [])
      ∷ []
  events_by TxType.store tx =
      build_event "Store" (
        ("sender", text tx.sender)
        ∷ ("documentHash", text_field "documentHash" tx)
        ∷ ("cid", text_field "cid" tx)
        ∷ [])
      ∷ []
  events_by TxType.share tx =
      build_event "Share" (("sender", text tx.sender) ∷ ("recipient", text tx.recipient) ∷ []) ∷ []
  events_by TxType.stake tx =
      build_event "Stake" (
        ("staker", text tx.sender)
        ∷ ("validator", text_field "validator_address" tx)
        ∷ ("amount", int_field "amount" tx)
        ∷ [])
      ∷ []
  events_by TxType.delegate tx =
      build_event "Delegate" (
        ("delegator", text tx.sender)
        ∷ ("validator", text_field "validator_address" tx)
        ∷ ("amount", int_field "amount" tx)
        ∷ [])
      ∷ []
  events_by TxType.unstake tx =
      build_event "Unstake" (
        ("staker", text tx.sender)
        ∷ ("validator", text_field "validator_address" tx)
        ∷ ("amount", int_field "amount" tx)
        ∷ [])
      ∷ []
  events_by TxType.register_key tx =
      build_event "KeyRegistered" (("address", text tx.sender) ∷ []) ∷ []
  events_by TxType.register_validator tx =
      build_event "ValidatorRegistered"
        (("address", get_or "validator_address" (text tx.sender) tx.payload) ∷ [])
      ∷ []
  events_by TxType.revoke_key tx =
      build_event "KeyRevoked"
        (("address", text tx.sender) ∷ ("key_type", text_field "key_type" tx) ∷ [])
      ∷ []
  events_by TxType.evidence tx =
      let total = get_or (get_text "validator_address" tx) 0 total_stake in
      build_event "Slashed" (
        ("validator", text_field "validator_address" tx)
        ∷ ("amount", int (pos (slash_of total)))
        ∷ [])
      ∷ []
  events_by TxType.issue_token tx =
      build_event "TokenIssued" (
        ("token_id", text (token_id tx))
        ∷ ("symbol", text_field "symbol" tx)
        ∷ ("name", text_field "name" tx)
        ∷ ("issuer", text tx.sender)
        ∷ ("max_supply", int_field "max_supply" tx)
        ∷ [])
      ∷ []
  events_by TxType.mint_token tx =
      build_event "TokenMinted" (
        ("token_id", text_field "token_id" tx)
        ∷ ("amount", int_field "amount" tx)
        ∷ ("recipient", text tx.recipient)
        ∷ ("total_minted", int (minted_of (lookup (get_text "token_id" tx) registry)))
        ∷ [])
      ∷ []
  events_by TxType.transfer_token tx =
      build_event "TokenTransferred" (
        ("token_id", text_field "token_id" tx)
        ∷ ("amount", int_field "amount" tx)
        ∷ ("sender", text tx.sender)
        ∷ ("recipient", text tx.recipient)
        ∷ [])
      ∷ []

  -- `_build_tx_events`
  unfoldable pub build_tx_events : Transaction → List Event
  build_tx_events tx = events_by tx.tx_type tx
