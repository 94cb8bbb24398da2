-- ===== src/Transaction.antt =====
-- qbit_network/core/transaction.py: a transaction and its payload. A payload is a dict of JSON
-- values; `tx_id` is the value of the property of that name (a SHA3-256 digest in hex).
use qbit_network.Common.{
  ℕ, String, Bool, true, false, Option, none, some, List, [], ◌∷◌, str_eq, if◌then◌else◌, not,
}
use qbit_network.Common.Int.{ℤ, pos}
use qbit_network.Common.Dict.{Dict, lookup, string_eq}
use qbit_network.Config.{TxType}

-- A JSON value; `other` is a float, a list or an object, of which the code reads here no more than
-- whether Python takes it for true.
pub data Value : Type 0 where
  null : Value
  other bool : Bool → Value
  int : ℤ → Value
  text : String → Value

-- The fields have the types that the constructor is annotated with. `from_dict` checks all of them but
-- that of the recipient: validate_with of Payload/Validate takes any recipient.
pub record Transaction : Type 0 where
  pub tx_type : TxType
  pub sender : String
  pub recipient : String
  pub timestamp : ℤ
  pub payload : Dict String Value
  pub signature : List ℕ
  pub sender_pubkey : List ℕ
  pub nonce : ℤ
  pub chain_id : String
  pub max_fee_per_weight : ℕ
  pub max_priority_fee : ℕ
  pub tx_id : String

-- `isinstance(v, int)`: in Python `True` and `False` are the integers 1 and 0.
abbrev pub as_int : Value → Option ℤ
as_int (int n) = some n
as_int (bool true) = some (pos 1)
as_int (bool false) = some (pos 0)
as_int _ = none

-- `isinstance(v, str)`
abbrev pub as_text : Value → Option String
as_text (text s) = some s
as_text _ = none

abbrev pub value_int : Option Value → ℤ
value_int none = pos 0
value_int (some v) = elim (as_int v) [ none ↦ pos 0 | some n ↦ n ]

abbrev pub value_text : Option Value → String
value_text none = ""
value_text (some v) = elim (as_text v) [ none ↦ "" | some s ↦ s ]

-- `tx.payload.get(k, 0)` where the code goes on to use an integer. A value of another type, which
-- `validate_payload` refuses beforehand, would raise TypeError there; it reads as 0 here.
unfoldable pub get_int : String → Transaction → ℤ
get_int k tx = value_int (lookup k tx.payload)

-- `tx.payload.get(k, "")`, likewise.
unfoldable pub get_text : String → Transaction → String
get_text k tx = value_text (lookup k tx.payload)

-- The code that transactions call: the text of json.dumps of a payload that it writes, by its length, and of the
-- signed fields; SHA3-256 in hex, Wallet.derive_address, and MLDSA.verify of a key, a message and a
-- signature.
pub record Primitives : Type 0 where
  pub json_size : Dict String Value → ℕ
  pub signable_bytes : Transaction → List ℕ
  pub sha3_hex : List ℕ → String
  pub derive_address : List ℕ → String
  pub mldsa_verify : List ℕ → List ℕ → List ℕ → Bool

abbrev is_empty : List ℕ → Bool
is_empty [] = true
is_empty (x ∷ l) = false

-- `Transaction.verify`
unfoldable pub verify : Primitives → Transaction → Bool
verify p tx =
    if is_empty tx.signature
    then false
    else if is_empty tx.sender_pubkey
    then false
    else if not (str_eq (p.derive_address tx.sender_pubkey) tx.sender)
    then false
    else p.mldsa_verify tx.sender_pubkey (p.signable_bytes tx) tx.signature

abbrev pub amount : Transaction → ℤ
amount tx = get_int "amount" tx

-- `tx.tx_type in (TxType.STAKE, TxType.DELEGATE)`
abbrev pub is_staking : TxType → Bool
is_staking TxType.stake = true
is_staking TxType.delegate = true
is_staking _ = false
