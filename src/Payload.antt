-- ===== src/Payload.antt =====
-- Transaction.validate_payload of qbit_network/core/transaction.py: the checks that its branches
-- share. A refusal is the (False, message) that the method returns; `type_error` and `value_error`
-- are exceptions that leave it instead. A chain of early returns is a chain of `refuse_if`.
pub mod Documents
pub mod Keys
pub mod Amounts
pub mod Evidence
pub mod Issue
pub mod Validate
pub mod Accepted
pub mod Facts
pub mod Sound
pub mod Quiet
pub mod Complete
mod Examples
use qbit_network.Common.{
  ℕ, zero, suc, String, Bool, true, false, not, ◌&&◌, ◌||◌, List, [], ◌∷◌, Option, none, some, ltb,
  leb, ◌==◌, if◌then◌else◌, str_eq, length, drop, take,
}
use qbit_network.Common.Int.{ℤ, pos, eqb_ℤ}
use qbit_network.Common.Dict.{Dict, lookup, string_eq}
pub use qbit_network.Common.Exec.{accept, refuse_if, refuse_if_lem}
use qbit_network.Common.Exec.{Result, ok, err}
use qbit_network.Common.Hex.{codes, hex_digit}
use qbit_network.Transaction.{Value, as_int}

pub data Refusal : Type 0 where
  payload_too_large unknown_payload_keys : Refusal
  exceeds_max_tx_amount supply_exceeds_max_tx_amount exceeds_max_supply : Refusal
  document_hash_not_hex document_hash_too_long metadata_not_text metadata_too_long : Refusal
  cid_required encapsulated_key_not_hex expires_invalid : Refusal
  encryption_pk_not_hex validator_pubkey_not_hex validator_pubkey_wrong_size : Refusal
  validator_address_empty validator_address_mismatch sender_not_validator : Refusal
  commission_invalid key_type_invalid reason_invalid : Refusal
  amount_below_min_stake amount_above_max_stake amount_not_positive : Refusal
  memo_not_text memo_too_long recipient_required recipient_is_sender recipient_invalid : Refusal
  evidence_type_invalid same_block_hash block_index_invalid : Refusal
  field_not_hex header_hash_mismatch : String → Refusal
  name_empty name_too_long name_invalid symbol_empty symbol_too_short symbol_too_long : Refusal
  symbol_invalid symbol_reserved decimals_invalid max_supply_invalid : Refusal
  transferable_invalid token_id_invalid : Refusal
  type_error value_error attribute_error : Refusal

abbrev pub Checked : Type 0
Checked = Result Refusal (Unit {0})

-- What is left of a text after the leading characters of a class: `[...]+$` without its first
-- character. `$` also matches before a newline that ends the text.
unfoldable pub rest_matches : (ℕ → Bool) → List ℕ → Bool
rest_matches inside [] = true
rest_matches inside (c ∷ []) = inside c || c == b'\n'
rest_matches inside (c ∷ d ∷ r) = inside c && rest_matches inside (d ∷ r)

-- `^[...]+$`
abbrev pub matches : (ℕ → Bool) → List ℕ → Bool
matches inside [] = false
matches inside (c ∷ r) = inside c && rest_matches inside r

abbrev is_some_digit : Option ℕ → Bool
is_some_digit none = false
is_some_digit (some d) = true

-- `_HEX_RE.match(s)`
unfoldable pub matches_hex : List ℕ → Bool
matches_hex s = matches (λ c. is_some_digit (hex_digit c)) s

-- The truth value of a JSON value in Python.
abbrev pub truthy : Value → Bool
truthy Value.null = false
truthy (Value.other b) = b
truthy (Value.bool b) = b
truthy (Value.int n) = not (eqb_ℤ n (pos 0))
truthy (Value.text s) = not (str_eq s "")

-- `payload.get(k, "")`
abbrev pub or_empty : Option Value → Value
or_empty none = Value.text ""
or_empty (some v) = v

-- `if not v or not _HEX_RE.match(v)`: the match raises TypeError on what is not a text.
abbrev pub require_hex : Value → Refusal → (String → Checked) → Checked
require_hex (Value.text s) r k = refuse_if (not (matches_hex (codes s))) r (k s)
require_hex v r k = refuse_if (not (truthy v)) r (err Refusal.type_error)

abbrev require_int_by : Option ℤ → Refusal → (ℤ → Checked) → Checked
require_int_by none r k = err r
require_int_by (some n) r k = k n

-- `if not isinstance(v, int)`
abbrev pub require_int : Option Value → Refusal → (ℤ → Checked) → Checked
require_int none r k = err r
require_int (some v) r k = require_int_by (as_int v) r k

-- `if not isinstance(v, str) or not v`
abbrev pub require_text : Value → Refusal → (String → Checked) → Checked
require_text (Value.text s) r k = refuse_if (str_eq s "") r (k s)
require_text v r k = err r

-- A text of at most `limit` characters, or null, or nothing.
abbrev pub optional_text : Option Value → ℕ → Refusal → Refusal → Checked → Checked
optional_text none limit not_text too_long k = k
optional_text (some Value.null) limit not_text too_long k = k
optional_text (some (Value.text s)) limit not_text too_long k =
    refuse_if (ltb limit (length (codes s))) too_long k
optional_text (some v) limit not_text too_long k = err not_text

-- `s.startswith(p)`
unfoldable pub starts_with : List ℕ → List ℕ → Bool
starts_with [] s = true
starts_with (c ∷ p) [] = false
starts_with (c ∷ p) (d ∷ s) = c == d && starts_with p s

-- The test of a recipient in the branches TRANSFER, MINT_TOKEN and TRANSFER_TOKEN.
unfoldable pub is_address : String → Bool
unfolding starts_with matches_hex
is_address recipient =
    let s = codes recipient in
    starts_with (codes "qv1") s && length s == 67 && matches_hex (drop 3 s)
