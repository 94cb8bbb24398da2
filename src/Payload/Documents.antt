-- ===== src/Payload/Documents.antt =====
-- The branches NOTARIZE, STORE and SHARE of validate_payload.
use qbit_network.Common.{String, not, ltb, Option, length}
use qbit_network.Common.Int.{pos, ltb_ℤ}
use qbit_network.Common.Dict.{Dict, lookup, get_or, string_eq}
use qbit_network.Common.Hex.{codes}
use qbit_network.Transaction.{Value}
use qbit_network.Payload.{
  Refusal, Checked, accept, refuse_if, truthy, or_empty, require_hex, require_int, optional_text,
}

-- The check of the document hash, which NOTARIZE and STORE begin with.
unfoldable pub check_document_hash : Dict String Value → Checked → Checked
check_document_hash payload k =
    require_hex (or_empty (lookup "documentHash" payload)) Refusal.document_hash_not_hex
      λ dh. refuse_if (ltb 128 (length (codes dh))) Refusal.document_hash_too_long k

-- The check of the metadata, which they end with.
unfoldable pub check_metadata : Dict String Value → Checked
check_metadata payload =
    optional_text (lookup "metadata" payload) 1024 Refusal.metadata_not_text
      Refusal.metadata_too_long accept

unfoldable pub check_notarize : Dict String Value → Checked
unfolding check_document_hash check_metadata
check_notarize payload = check_document_hash payload (check_metadata payload)

unfoldable pub check_store : Dict String Value → Checked
unfolding check_document_hash check_metadata
check_store payload = check_document_hash payload (
    refuse_if (not (truthy (or_empty (lookup "cid" payload)))) Refusal.cid_required
      (check_metadata payload))

unfoldable pub check_share : Dict String Value → Checked
check_share payload =
    refuse_if (not (truthy (or_empty (lookup "cid" payload)))) Refusal.cid_required (
      require_hex (or_empty (lookup "encapsulatedKey" payload)) Refusal.encapsulated_key_not_hex
        λ ek.
          require_int (Option.some (get_or "expires" (Value.int (pos 0)) payload))
            Refusal.expires_invalid
            λ expires. refuse_if (ltb_ℤ expires (pos 0)) Refusal.expires_invalid accept)
