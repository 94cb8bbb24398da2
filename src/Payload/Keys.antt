-- ===== src/Payload/Keys.antt =====
-- The branches REGISTER_KEY, REGISTER_VALIDATOR and REVOKE_KEY of validate_payload. The address of
-- a public key, Wallet.derive_address, is a parameter.
use qbit_network.Common.{
  ℕ, String, not, List, [], ◌∷◌, Option, none, some, ◌||◌, ◌==◌, str_eq, length,
}
use qbit_network.Common.Int.{pos, ltb_ℤ}
use qbit_network.Common.Dict.{Dict, lookup, string_eq}
use qbit_network.Common.Exec.{err}
use qbit_network.Common.Hex.{codes, from_hex}
use qbit_network.Staking.{member}
use qbit_network.Transaction.{Value}
use qbit_network.Payload.{
  Refusal, Checked, accept, refuse_if, or_empty, require_hex, require_int, require_text,
}

unfoldable pub check_register_key : Dict String Value → Checked
check_register_key payload =
    require_hex (or_empty (lookup "encryption_pk" payload)) Refusal.encryption_pk_not_hex
      λ epk. accept

-- `commission`: an integer percentage, or null, or nothing.
unfoldable pub check_commission : Option Value → Checked
check_commission none = accept
check_commission (some Value.null) = accept
check_commission (some v) = require_int (some v) Refusal.commission_invalid λ commission.
    refuse_if (ltb_ℤ commission (pos 0) || ltb_ℤ (pos 100) commission) Refusal.commission_invalid
      accept

-- `bytes.fromhex(s)`, which may raise ValueError.
abbrev pub decode : Option (List ℕ) → (List ℕ → Checked) → Checked
decode none k = err Refusal.value_error
decode (some bytes) k = k bytes

unfoldable pub check_register_validator : (List ℕ → String) → String → Dict String Value → Checked
unfolding check_commission
check_register_validator derive_address sender payload =
    require_hex (or_empty (lookup "validator_pubkey" payload)) Refusal.validator_pubkey_not_hex
      λ vpk. refuse_if (not (length (codes vpk) == 3904)) Refusal.validator_pubkey_wrong_size (
        require_text (or_empty (lookup "validator_address" payload)) Refusal.validator_address_empty
          λ vaddr. decode (from_hex (codes vpk)) λ key.
            refuse_if (not (str_eq vaddr (derive_address key))) Refusal.validator_address_mismatch (
              refuse_if (not (str_eq sender vaddr)) Refusal.sender_not_validator
                (check_commission (lookup "commission" payload))))

-- `not isinstance(v, str) or v not in options`
abbrev pub require_one_of : List String → Value → Refusal → Checked → Checked
require_one_of options (Value.text s) r k = refuse_if (not (member s options)) r k
require_one_of options v r k = err r

unfoldable pub check_revoke_key : Dict String Value → Checked
check_revoke_key payload =
    require_one_of ("signing" ∷ "encryption" ∷ "validator" ∷ [])
      (or_empty (lookup "key_type" payload)) Refusal.key_type_invalid
      (require_one_of ("compromised" ∷ "rotation" ∷ "decommission" ∷ [])
        (or_empty (lookup "reason" payload)) Refusal.reason_invalid accept)
