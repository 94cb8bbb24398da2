-- ===== src/Payload/Evidence.antt =====
-- The branch EVIDENCE of validate_payload. The SHA3-256 digest in hex is a parameter.
use qbit_network.Common.{ℕ, String, Bool, false, not, List, [], ◌∷◌, str_eq}
use qbit_network.Common.Int.{pos, ltb_ℤ}
use qbit_network.Common.Dict.{Dict, lookup, string_eq}
use qbit_network.Common.Hex.{codes, from_hex}
use qbit_network.Transaction.{Value, value_text}
use qbit_network.Payload.{
  Refusal, Checked, accept, refuse_if, or_empty, require_int, require_text, matches_hex,
}
use qbit_network.Payload.Keys.{decode}

-- `isinstance(v, str) and v and _HEX_RE.match(v)`
abbrev pub is_hex_text : Value → Bool
is_hex_text (Value.text s) = matches_hex (codes s)
is_hex_text v = false

-- The loops over the fields that are hex texts.
unfoldable pub check_hex_fields : List String → Dict String Value → Checked → Checked
check_hex_fields [] payload k = k
check_hex_fields (field ∷ fields) payload k =
    refuse_if (not (is_hex_text (or_empty (lookup field payload)))) (Refusal.field_not_hex field)
      (check_hex_fields fields payload k)

abbrev pub evidence_fields : List String
evidence_fields =
    "block_a_hash" ∷ "block_b_hash" ∷ "block_a_sig" ∷ "block_b_sig" ∷ "block_a_header"
    ∷ "block_b_header" ∷ []

abbrev pub is_double_sign : Value → Bool
is_double_sign (Value.text s) = str_eq s "double_sign"
is_double_sign v = false

module _ (sha3_hex : List ℕ → String) where
  -- A round of the loop over the headers.
  unfoldable pub check_header_hash : String → String → Dict String Value → Checked → Checked
  check_header_hash hdr_field hash_field payload k =
      decode (from_hex (codes (value_text (lookup hdr_field payload)))) λ hdr_bytes.
        refuse_if (not (str_eq (sha3_hex hdr_bytes) (value_text (lookup hash_field payload))))
          (Refusal.header_hash_mismatch hdr_field) k

  unfoldable pub check_evidence : Dict String Value → Checked
  unfolding check_hex_fields check_header_hash
  check_evidence payload =
      refuse_if (not (is_double_sign (or_empty (lookup "evidence_type" payload))))
        Refusal.evidence_type_invalid
        (check_hex_fields evidence_fields payload (
          check_header_hash "block_a_header" "block_a_hash" payload (
            check_header_hash "block_b_header" "block_b_hash" payload (
              refuse_if
                (str_eq (value_text (lookup "block_a_hash" payload))
                  (value_text (lookup "block_b_hash" payload)))
                Refusal.same_block_hash
                (require_int (lookup "block_index" payload) Refusal.block_index_invalid λ bi.
                  refuse_if (ltb_ℤ bi (pos 0)) Refusal.block_index_invalid (
                    require_text (or_empty (lookup "validator_address" payload))
                      Refusal.validator_address_empty λ vaddr. accept))))))
