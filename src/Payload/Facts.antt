-- ===== src/Payload/Facts.antt =====
-- What the accepted branches of validate_payload say of the payload.
use qbit_network.Common.{
  ℕ, ◌≤◌, String, true, false, not, ◌&&◌, List, [], ◌∷◌, Option, none, some, ◌≡◌, ◌≢◌, refl, sym,
  ap, ◌∙◌, str_eq, eq_iff, ◌==◌, length, arith,
}
use qbit_network.Common.Int.{ℤ, pos, ◌≤ℤ◌, ◌<ℤ◌, ltb_ℤ, leb_ℤ, ltb_ℤ→le, leb_ℤ→lt}
use qbit_network.Common.Dict.{Dict, lookup, string_eq}
use qbit_network.Common.Hex.{codes, from_hex}
use qbit_network.Config.{min_stake, max_stake, max_supply}
use qbit_network.Transaction.{Value, value_int, value_text}
use qbit_network.Payload.{Checked, accept, refuse_if_lem, or_empty, matches_hex, is_address}
use qbit_network.Payload.Accepted.{
  require_int_lem, require_text_lem, require_hex_lem, optional_text_lem,
}
use qbit_network.Payload.Keys.{check_register_validator, decode}
use qbit_network.Payload.Amounts.{
  check_stake, check_amount, check_memo, check_other_recipient, check_token_id,
}
use qbit_network.Payload.Evidence.{
  check_hex_fields, check_header_hash, check_evidence, evidence_fields,
}

abbrev pub int_of : String → Dict String Value → ℤ
int_of k payload = value_int (lookup k payload)

abbrev pub text_of : String → Dict String Value → String
text_of k payload = value_text (lookup k payload)

-- An amount of coins or tokens that can be moved.
abbrev pub HasAmount : Dict String Value → Type 0
HasAmount payload = (pos 1 ≤ℤ int_of "amount" payload) × (int_of "amount" payload ≤ℤ pos max_supply)

abbrev pub HasStake : Dict String Value → Type 0
HasStake payload =
    (pos min_stake ≤ℤ int_of "amount" payload)
    × (int_of "amount" payload ≤ℤ pos max_stake)
    × (str_eq (text_of "validator_address" payload) "" ≡ false)

abbrev pub HasTokenId : Dict String Value → Type 0
HasTokenId payload =
    (length (codes (text_of "token_id" payload)) ≡ 32)
    × (matches_hex (codes (text_of "token_id" payload)) ≡ true)

-- Two different headers whose digests are the two block hashes.
abbrev pub HasTwoHeaders : (List ℕ → String) → Dict String Value → Type 0
HasTwoHeaders sha3_hex payload =
    (a : List ℕ) × (b : List ℕ) × (from_hex (codes (text_of "block_a_header" payload)) ≡ some a)
    × (from_hex (codes (text_of "block_b_header" payload)) ≡ some b)
    × (sha3_hex a ≡ text_of "block_a_hash" payload)
    × (sha3_hex b ≡ text_of "block_b_hash" payload)
    × (a ≢ b)
    × (str_eq (text_of "validator_address" payload) "" ≡ false)

-- The key that a validator registers is 1952 bytes in hex and its own.
abbrev pub HasOwnKey : (List ℕ → String) → String → Dict String Value → Type 0
HasOwnKey derive_address sender payload =
    (key : List ℕ) × (from_hex (codes (text_of "validator_pubkey" payload)) ≡ some key)
    × (length (codes (text_of "validator_pubkey" payload)) ≡ 3904)
    × (sender ≡ derive_address key)
    × (text_of "validator_address" payload ≡ sender)

at_least_one : (n : ℤ) → pos 0 <ℤ n → pos 1 ≤ℤ n
at_least_one n h = omega arith

pub check_amount_lem :
    (payload : Dict String Value) (k : Checked)
    → check_amount payload k ≡ accept
    → HasAmount payload × (k ≡ accept)
unfolding check_amount
check_amount_lem payload k h =
    let n = int_of "amount" payload in
    let inner = require_int_lem (lookup "amount" payload) _ _ h in
    let (positive, rest) = refuse_if_lem (leb_ℤ n (pos 0)) _ _ inner in
    let (capped, last) = refuse_if_lem (ltb_ℤ (pos max_supply) n) _ k rest in
    ((at_least_one n (leb_ℤ→lt n (pos 0) positive), ltb_ℤ→le (pos max_supply) n capped), last)

pub check_stake_lem :
    (payload : Dict String Value) → check_stake payload ≡ accept → HasStake payload
unfolding check_stake
check_stake_lem payload h =
    let n = int_of "amount" payload in
    let inner = require_int_lem (lookup "amount" payload) _ _ h in
    let (low, rest) = refuse_if_lem (ltb_ℤ n (pos min_stake)) _ _ inner in
    let (high, last) = refuse_if_lem (ltb_ℤ (pos max_stake) n) _ _ rest in
    let (named, _) = require_text_lem (lookup "validator_address" payload) _ _ last in
    (ltb_ℤ→le n (pos min_stake) low, ltb_ℤ→le (pos max_stake) n high, named)

pub check_memo_lem :
    (payload : Dict String Value) (k : Checked)
    → check_memo payload k ≡ accept
    → (length (codes (text_of "memo" payload)) ≤ 256) × (k ≡ accept)
unfolding check_memo
check_memo_lem payload k h = optional_text_lem (lookup "memo" payload) 256 _ _ k h

pub check_other_recipient_lem :
    (sender recipient : String) (k : Checked)
    → check_other_recipient sender (Value.text recipient) k ≡ accept
    → (recipient ≢ sender) × (is_address recipient ≡ true) × (k ≡ accept)
unfolding check_other_recipient
check_other_recipient_lem sender recipient k h =
    let (named, rest) = refuse_if_lem (str_eq recipient "") _ _ h in
    let (other, more) = refuse_if_lem (str_eq recipient sender) _ _ rest in
    let (valid, last) = refuse_if_lem (not (is_address recipient)) _ k more in
    (λ e. ground (arith, eq_iff recipient sender), ground arith, last)

pub check_token_id_lem :
    (o : Option Value) (k : Checked)
    → check_token_id (or_empty o) k ≡ accept
    → ((length (codes (value_text o)) ≡ 32) × (matches_hex (codes (value_text o)) ≡ true))
      × (k ≡ accept)
unfolding check_token_id
check_token_id_lem none k h = cc
check_token_id_lem (some Value.null) k h = cc
check_token_id_lem (some (Value.other b)) k h = cc
check_token_id_lem (some (Value.bool b)) k h = cc
check_token_id_lem (some (Value.int n)) k h = cc
check_token_id_lem (some (Value.text s)) k h =
    let (shape, rest) =
      refuse_if_lem (not (length (codes s) == 32 && matches_hex (codes s))) _ k h in
    ((ground arith, ground arith), rest)

pub decode_lem :
    (o : Option (List ℕ)) (k : List ℕ → Checked)
    → decode o k ≡ accept
    → (bytes : List ℕ) × (o ≡ some bytes) × (k bytes ≡ accept)
decode_lem none k h = cc
decode_lem (some bytes) k h = (bytes, refl, h)

pub check_header_hash_lem :
    (sha3_hex : List ℕ → String) (hdr_field hash_field : String) (payload : Dict String Value)
    (k : Checked)
    → check_header_hash sha3_hex hdr_field hash_field payload k ≡ accept
    → (bytes : List ℕ) × (from_hex (codes (text_of hdr_field payload)) ≡ some bytes)
      × (sha3_hex bytes ≡ text_of hash_field payload)
      × (k ≡ accept)
unfolding check_header_hash
check_header_hash_lem sha3_hex hdr_field hash_field payload k h =
    let (bytes, decoded, d) = decode_lem _ _ h in
    let (same, rest) =
      refuse_if_lem (not (str_eq (sha3_hex bytes) (text_of hash_field payload))) _ k d in
    (bytes, decoded, ground (arith, eq_iff (sha3_hex bytes) (text_of hash_field payload)), rest)

pub check_hex_fields_lem :
    (fields : List String) (payload : Dict String Value) (k : Checked)
    → check_hex_fields fields payload k ≡ accept
    → k ≡ accept
unfolding check_hex_fields
check_hex_fields_lem [] payload k h = h
check_hex_fields_lem (field ∷ fields) payload k h =
    let (_, rest) = refuse_if_lem _ _ (check_hex_fields fields payload k) h in
    check_hex_fields_lem fields payload k rest

pub check_evidence_lem :
    (sha3_hex : List ℕ → String) (payload : Dict String Value)
    → check_evidence sha3_hex payload ≡ accept
    → HasTwoHeaders sha3_hex payload
unfolding check_evidence
check_evidence_lem sha3_hex payload h =
    let ha = text_of "block_a_hash" payload in
    let hb = text_of "block_b_hash" payload in
    let (_, typed) = refuse_if_lem _ _ _ h in
    let fields = check_hex_fields_lem evidence_fields payload _ typed in
    let first = check_header_hash_lem sha3_hex "block_a_header" "block_a_hash" payload _ fields in
    let second = check_header_hash_lem sha3_hex "block_b_header" "block_b_hash" payload _ first.3 in
    let (differ, last) = refuse_if_lem (str_eq ha hb) _ _ second.3 in
    let inner = require_int_lem (lookup "block_index" payload) _ _ last in
    let (_, end) = refuse_if_lem _ _ _ inner in
    let (named, _) = require_text_lem (lookup "validator_address" payload) _ _ end in
    (
      first.0,
      second.0,
      first.1,
      second.1,
      first.2,
      second.2,
      λ e. apart ha hb differ (sym first.2 ∙ ap sha3_hex e ∙ second.2),
      named,
    )
  where
    apart : (a b : String) → str_eq a b ≡ false → a ≢ b
    apart a b differ same = ground (arith, eq_iff a b)

pub check_register_validator_lem :
    (derive_address : List ℕ → String) (sender : String) (payload : Dict String Value)
    → check_register_validator derive_address sender payload ≡ accept
    → HasOwnKey derive_address sender payload
unfolding check_register_validator
check_register_validator_lem derive_address sender payload h =
    let vpk = text_of "validator_pubkey" payload in
    let vaddr = text_of "validator_address" payload in
    let (_, a) = require_hex_lem (lookup "validator_pubkey" payload) _ _ h in
    let (sized, b) = refuse_if_lem (not (length (codes vpk) == 3904)) _ _ a in
    let (_, c) = require_text_lem (lookup "validator_address" payload) _ _ b in
    let decoded = decode_lem (from_hex (codes vpk)) _ c in
    let address = derive_address decoded.0 in
    let (derived, d) = refuse_if_lem (not (str_eq vaddr address)) _ _ decoded.2 in
    let (own, _) = refuse_if_lem (not (str_eq sender vaddr)) _ _ d in
    (
      decoded.0,
      decoded.1,
      ground arith,
      ground (arith, eq_iff vaddr address, eq_iff sender vaddr),
      ground (arith, eq_iff sender vaddr),
    )
