-- ===== src/Payload/Complete.antt =====
-- The transfers that validate_payload accepts.
use qbit_network.Common.{
  ℕ, ◌≤◌, String, true, false, not, [], ◌∷◌, ◌≡◌, ◌≢◌, refl, sym, ap, ◌∙◌, str_eq, eq_iff, ltb,
  arith, Bool-cases, inl, inr,
}
use mathlib.Core.Path.{subst}
use qbit_network.Common.Int.{pos, ltb_ℤ, leb_ℤ}
use qbit_network.Common.Dict.{Dict, lookup, string_eq}
use qbit_network.Common.Exec.{refuse_if-false}
use qbit_network.Config.{TxType, max_supply, max_tx_amount, max_tx_payload_size}
use qbit_network.Staking.{member}
use qbit_network.Transaction.{Transaction, Primitives, Value}
use qbit_network.Payload.{Checked, accept, is_address, starts_with}
use qbit_network.Payload.Amounts.{check_transfer, check_amount, check_memo, check_other_recipient}
use qbit_network.Payload.Validate.{
  allowed_keys, has_extra_keys, guard_amounts, check_by, validate_payload,
}

empty_address : is_address "" ≡ false
unfolding is_address starts_with
empty_address = refl

address_nonempty : (s : String) → is_address s ≡ true → str_eq s "" ≡ false
address_nonempty s h = elim (Bool-cases (str_eq s "")) [
  | inl e ↦ let clash = sym h ∙ ap is_address ((eq_iff s "").0 e) ∙ empty_address in cc
  | inr n ↦ n
]

-- The payload of a transfer without a memo.
abbrev pub transfer_payload : ℕ → Dict String Value
transfer_payload n = ("amount", Value.int (pos n)) ∷ []

check_other_recipient_passes :
    (sender recipient : String)
    → recipient ≢ sender
    → is_address recipient ≡ true
    → check_other_recipient sender (Value.text recipient) accept ≡ accept
unfolding check_other_recipient
check_other_recipient_passes sender recipient other valid =
    refuse_if-false (str_eq recipient "") _ _ (address_nonempty recipient valid) (
      refuse_if-false (str_eq recipient sender) _ _ (ground (arith, eq_iff recipient sender))
        (refuse_if-false (not (is_address recipient)) _ _ (ground arith) refl))

check_transfer_passes :
    (sender recipient : String) (n : ℕ)
    → 1 ≤ n
    → n ≤ max_supply
    → recipient ≢ sender
    → is_address recipient ≡ true
    → check_transfer sender (Value.text recipient) (transfer_payload n) ≡ accept
unfolding check_transfer check_amount check_memo lookup
check_transfer_passes sender recipient n low high other valid =
    refuse_if-false (leb_ℤ (pos n) (pos 0)) _ _ (ground arith) (
      refuse_if-false (ltb_ℤ (pos max_supply) (pos n)) _ _ (ground arith)
        (check_other_recipient_passes sender recipient other valid))

guard_passes :
    (n : ℕ) (k : Checked)
    → n ≤ max_supply
    → k ≡ accept
    → guard_amounts TxType.transfer (transfer_payload n) k ≡ accept
unfolding guard_amounts lookup
guard_passes n k high h =
    refuse_if-false (ltb_ℤ (pos max_tx_amount) (pos n)) _ _ (ground arith)
      (refuse_if-false (ltb_ℤ (pos max_supply) (pos n)) _ _ (ground arith) h)

fits : (x : ℕ) → x ≤ max_tx_payload_size → ltb max_tx_payload_size x ≡ false
fits x h = ground arith

module _ (p : Primitives) where
  -- A TRANSFER of 1 to MAX_SUPPLY to another recipient with the form of an address is accepted,
  -- when its payload holds the amount alone and is within the size limit.
  pub validate_payload_complete :
      (tx : Transaction) (n : ℕ)
      → tx.tx_type ≡ TxType.transfer
      → tx.payload ≡ transfer_payload n
      → p.json_size tx.payload ≤ max_tx_payload_size
      → 1 ≤ n
      → n ≤ max_supply
      → tx.recipient ≢ tx.sender
      → is_address tx.recipient ≡ true
      → validate_payload p tx ≡ accept
  unfolding validate_payload has_extra_keys check_by member allowed_keys
  validate_payload_complete tx n t e size low high other valid =
      rw (t, e)
        (refuse_if-false (ltb max_tx_payload_size (p.json_size (transfer_payload n))) _ _
          (fits (p.json_size (transfer_payload n))
            (subst (λ d. p.json_size d ≤ max_tx_payload_size) e size))
          (guard_passes n _ high
            (check_transfer_passes tx.sender tx.recipient n low high other valid)))
