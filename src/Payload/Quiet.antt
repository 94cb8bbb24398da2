-- ===== src/Payload/Quiet.antt =====
-- Which branches of validate_payload can leave it by an exception.
use qbit_network.Common.{
  ℕ, List, String, Bool, true, false, not, Option, none, some, ◌≡◌, refl, str_eq,
}
use qbit_network.Common.Int.{ℤ, pos}
use qbit_network.Common.Dict.{Dict, string_eq}
use qbit_network.Common.Exec.{ok, err}
use qbit_network.Config.{TxType}
use qbit_network.Transaction.{Transaction, Primitives, Value}
use qbit_network.Payload.{
  Refusal, Checked, accept, refuse_if, require_int, require_text, optional_text, truthy,
}
use qbit_network.Payload.Amounts.{
  check_stake, check_amount, check_memo, check_other_recipient, check_recipient, check_transfer,
  check_token_id, check_mint_token, check_transfer_token,
}
use qbit_network.Payload.Keys.{check_revoke_key, require_one_of}
use qbit_network.Payload.Issue.{check_issue_token, check_transferable}
use qbit_network.Payload.Validate.{guard_amounts, check_by, validate_with}

-- The result is an exception, not a refusal.
abbrev pub is_exception : Refusal → Bool
is_exception Refusal.type_error = true
is_exception Refusal.value_error = true
is_exception Refusal.attribute_error = true
is_exception _ = false

abbrev pub raised : Checked → Bool
raised (ok x) = false
raised (err r) = is_exception r

pub record IsQuiet (c : Checked) : Type 0 where
  pub quiet : raised c ≡ false

pub record IsRefusal (r : Refusal) : Type 0 where
  pub refusal : is_exception r ≡ false

refusal_if : (r : Refusal) → is_exception r ≡ false → IsRefusal r
refusal_if r h = record { refusal = h }

IsQuiet-if : (c : Checked) → raised c ≡ false → IsQuiet c
IsQuiet-if c h = record { quiet = h }

refuse_if-IsQuiet :
    (c : Bool) (r : Refusal) (k : Checked) → IsRefusal r → IsQuiet k → IsQuiet (refuse_if c r k)
refuse_if-IsQuiet true r k q h = IsQuiet-if (err r) q.refusal
refuse_if-IsQuiet false r k q h = h

require_int-IsQuiet :
    (o : Option Value) (r : Refusal) (k : ℤ → Checked)
    → IsRefusal r
    → ((n : ℤ) → IsQuiet (k n))
    → IsQuiet (require_int o r k)
require_int-IsQuiet none r k q h = IsQuiet-if (err r) q.refusal
require_int-IsQuiet (some Value.null) r k q h = IsQuiet-if (err r) q.refusal
require_int-IsQuiet (some (Value.other b)) r k q h = IsQuiet-if (err r) q.refusal
require_int-IsQuiet (some (Value.bool true)) r k q h = h (pos 1)
require_int-IsQuiet (some (Value.bool false)) r k q h = h (pos 0)
require_int-IsQuiet (some (Value.int n)) r k q h = h n
require_int-IsQuiet (some (Value.text s)) r k q h = IsQuiet-if (err r) q.refusal

require_text-IsQuiet :
    (v : Value) (r : Refusal) (k : String → Checked)
    → IsRefusal r
    → ((s : String) → IsQuiet (k s))
    → IsQuiet (require_text v r k)
require_text-IsQuiet Value.null r k q h = IsQuiet-if (err r) q.refusal
require_text-IsQuiet (Value.other b) r k q h = IsQuiet-if (err r) q.refusal
require_text-IsQuiet (Value.bool b) r k q h = IsQuiet-if (err r) q.refusal
require_text-IsQuiet (Value.int n) r k q h = IsQuiet-if (err r) q.refusal
require_text-IsQuiet (Value.text s) r k q h = refuse_if-IsQuiet (str_eq s "") r (k s) q (h s)

optional_text-IsQuiet :
    (o : Option Value) (limit : ℕ) (r t : Refusal) (k : Checked)
    → IsRefusal r
    → IsRefusal t
    → IsQuiet k
    → IsQuiet (optional_text o limit r t k)
optional_text-IsQuiet none limit r t k q u h = h
optional_text-IsQuiet (some Value.null) limit r t k q u h = h
optional_text-IsQuiet (some (Value.other b)) limit r t k q u h = IsQuiet-if (err r) q.refusal
optional_text-IsQuiet (some (Value.bool b)) limit r t k q u h = IsQuiet-if (err r) q.refusal
optional_text-IsQuiet (some (Value.int n)) limit r t k q u h = IsQuiet-if (err r) q.refusal
optional_text-IsQuiet (some (Value.text s)) limit r t k q u h = refuse_if-IsQuiet _ t k u h

require_one_of-IsQuiet :
    (options : List String) (v : Value) (r : Refusal) (k : Checked)
    → IsRefusal r
    → IsQuiet k
    → IsQuiet (require_one_of options v r k)
require_one_of-IsQuiet options Value.null r k q h = IsQuiet-if (err r) q.refusal
require_one_of-IsQuiet options (Value.other b) r k q h = IsQuiet-if (err r) q.refusal
require_one_of-IsQuiet options (Value.bool b) r k q h = IsQuiet-if (err r) q.refusal
require_one_of-IsQuiet options (Value.int n) r k q h = IsQuiet-if (err r) q.refusal
require_one_of-IsQuiet options (Value.text s) r k q h = refuse_if-IsQuiet _ r k q h

accept-IsQuiet : IsQuiet accept
accept-IsQuiet = IsQuiet-if accept refl

ruleset quiet_rules = (
  refuse_if-IsQuiet, require_int-IsQuiet, require_text-IsQuiet, optional_text-IsQuiet, refusal_if,
  refl, accept-IsQuiet,
)

check_stake-IsQuiet : (payload : Dict String Value) → IsQuiet (check_stake payload)
unfolding check_stake
check_stake-IsQuiet payload = search quiet_rules depth 8

check_amount-IsQuiet :
    (payload : Dict String Value) (k : Checked) → IsQuiet k → IsQuiet (check_amount payload k)
unfolding check_amount
check_amount-IsQuiet payload k h = search quiet_rules depth 8

check_memo-IsQuiet :
    (payload : Dict String Value) (k : Checked) → IsQuiet k → IsQuiet (check_memo payload k)
unfolding check_memo
check_memo-IsQuiet payload k h = search quiet_rules depth 8

-- A text, or a value that Python takes for false.
abbrev pub is_usable : Value → Bool
is_usable (Value.text s) = true
is_usable v = not (truthy v)

falsy-IsQuiet :
    (b : Bool) (k : Checked)
    → not b ≡ true
    → IsQuiet (refuse_if (not b) Refusal.recipient_required k)
falsy-IsQuiet false k h = IsQuiet-if (err Refusal.recipient_required) refl
falsy-IsQuiet true k h = cc

check_other_recipient-IsQuiet :
    (sender : String) (recipient : Value) (k : Checked)
    → is_usable recipient ≡ true
    → IsQuiet k
    → IsQuiet (check_other_recipient sender recipient k)
unfolding check_other_recipient
check_other_recipient-IsQuiet sender (Value.text recipient) k u h = search quiet_rules depth 8
check_other_recipient-IsQuiet sender Value.null k u h =
    IsQuiet-if (err Refusal.recipient_required) refl
check_other_recipient-IsQuiet sender (Value.other b) k u h =
    falsy-IsQuiet (truthy (Value.other b)) _ u
check_other_recipient-IsQuiet sender (Value.bool b) k u h =
    falsy-IsQuiet (truthy (Value.bool b)) _ u
check_other_recipient-IsQuiet sender (Value.int n) k u h = falsy-IsQuiet (truthy (Value.int n)) _ u

check_recipient-IsQuiet :
    (recipient : Value) → is_usable recipient ≡ true → IsQuiet (check_recipient recipient)
unfolding check_recipient
check_recipient-IsQuiet (Value.text recipient) u = search quiet_rules depth 8
check_recipient-IsQuiet Value.null u = IsQuiet-if (err Refusal.recipient_required) refl
check_recipient-IsQuiet (Value.other b) u = falsy-IsQuiet (truthy (Value.other b)) _ u
check_recipient-IsQuiet (Value.bool b) u = falsy-IsQuiet (truthy (Value.bool b)) _ u
check_recipient-IsQuiet (Value.int n) u = falsy-IsQuiet (truthy (Value.int n)) _ u

check_token_id-IsQuiet : (v : Value) (k : Checked) → IsQuiet k → IsQuiet (check_token_id v k)
unfolding check_token_id
check_token_id-IsQuiet Value.null k h = IsQuiet-if (err Refusal.token_id_invalid) refl
check_token_id-IsQuiet (Value.other b) k h = IsQuiet-if (err Refusal.token_id_invalid) refl
check_token_id-IsQuiet (Value.bool b) k h = IsQuiet-if (err Refusal.token_id_invalid) refl
check_token_id-IsQuiet (Value.int n) k h = IsQuiet-if (err Refusal.token_id_invalid) refl
check_token_id-IsQuiet (Value.text s) k h = search quiet_rules depth 8

check_transferable-IsQuiet : (o : Option Value) → IsQuiet (check_transferable o)
unfolding check_transferable
check_transferable-IsQuiet none = accept-IsQuiet
check_transferable-IsQuiet (some (Value.bool b)) = accept-IsQuiet
check_transferable-IsQuiet (some Value.null) = IsQuiet-if (err Refusal.transferable_invalid) refl
check_transferable-IsQuiet (some (Value.other b)) =
    IsQuiet-if (err Refusal.transferable_invalid) refl
check_transferable-IsQuiet (some (Value.int n)) = IsQuiet-if (err Refusal.transferable_invalid) refl
check_transferable-IsQuiet (some (Value.text s)) =
    IsQuiet-if (err Refusal.transferable_invalid) refl

check_revoke_key-IsQuiet : (payload : Dict String Value) → IsQuiet (check_revoke_key payload)
unfolding check_revoke_key
check_revoke_key-IsQuiet payload = search (quiet_rules, require_one_of-IsQuiet) depth 8

check_issue_token-IsQuiet : (payload : Dict String Value) → IsQuiet (check_issue_token payload)
unfolding check_issue_token
check_issue_token-IsQuiet payload = search (quiet_rules, check_transferable-IsQuiet) depth 20

-- The types whose checks look at the type of every value before they use it.
abbrev pub is_guarded : TxType → Bool
is_guarded TxType.revoke_key = true
is_guarded TxType.transfer = true
is_guarded TxType.stake = true
is_guarded TxType.delegate = true
is_guarded TxType.unstake = true
is_guarded TxType.issue_token = true
is_guarded TxType.mint_token = true
is_guarded TxType.transfer_token = true
is_guarded _ = false

-- The types whose checks look at the recipient.
abbrev pub reads_recipient : TxType → Bool
reads_recipient TxType.transfer = true
reads_recipient TxType.mint_token = true
reads_recipient TxType.transfer_token = true
reads_recipient _ = false

guard_amounts-IsQuiet :
    (t : TxType) (payload : Dict String Value) (k : Checked)
    → IsQuiet k
    → IsQuiet (guard_amounts t payload k)
unfolding guard_amounts
guard_amounts-IsQuiet t payload k h = search quiet_rules depth 8

ruleset branch_rules = (
  check_stake-IsQuiet, check_amount-IsQuiet, check_memo-IsQuiet, check_other_recipient-IsQuiet,
  check_recipient-IsQuiet, check_token_id-IsQuiet, check_issue_token-IsQuiet,
  check_revoke_key-IsQuiet,
)

module _ (p : Primitives) where
  check_by-IsQuiet :
      (t : TxType) (sender : String) (recipient : Value) (payload : Dict String Value)
      → is_guarded t ≡ true
      → (reads_recipient t ≡ true → is_usable recipient ≡ true)
      → IsQuiet (check_by p t sender recipient payload)
  unfolding check_by check_transfer check_mint_token check_transfer_token
  check_by-IsQuiet TxType.revoke_key s r payload g u = search branch_rules
  check_by-IsQuiet TxType.transfer s r payload g u =
      let usable = u refl in search (branch_rules, quiet_rules) depth 8
  check_by-IsQuiet TxType.stake s r payload g u = search branch_rules
  check_by-IsQuiet TxType.delegate s r payload g u = search branch_rules
  check_by-IsQuiet TxType.unstake s r payload g u = search branch_rules
  check_by-IsQuiet TxType.issue_token s r payload g u = search branch_rules
  check_by-IsQuiet TxType.mint_token s r payload g u =
      let usable = u refl in search (branch_rules, quiet_rules) depth 8
  check_by-IsQuiet TxType.transfer_token s r payload g u =
      let usable = u refl in search (branch_rules, quiet_rules) depth 8
  check_by-IsQuiet TxType.register_validator s r payload g u = cc
  check_by-IsQuiet TxType.register_key s r payload g u = cc
  check_by-IsQuiet TxType.notarize s r payload g u = cc
  check_by-IsQuiet TxType.store s r payload g u = cc
  check_by-IsQuiet TxType.share s r payload g u = cc
  check_by-IsQuiet TxType.evidence s r payload g u = cc

  frame-IsQuiet :
      (tx : Transaction) (recipient : Value)
      → is_guarded tx.tx_type ≡ true
      → (reads_recipient tx.tx_type ≡ true → is_usable recipient ≡ true)
      → IsQuiet (validate_with p tx recipient)
  unfolding validate_with
  frame-IsQuiet tx recipient g u =
      search (quiet_rules, guard_amounts-IsQuiet, check_by-IsQuiet) depth 8

  -- Whatever JSON values the payload of a transfer, stake, delegation, unstake, key revocation or
  -- token transaction holds, it is accepted or refused with a message, and no exception leaves the
  -- validation, if json.dumps writes the payload and, for the types that name a recipient (TRANSFER,
  -- MINT_TOKEN, TRANSFER_TOKEN), this is a text or a value that Python takes for false.
  pub validate_payload_quiet :
      (tx : Transaction) (recipient : Value)
      → is_guarded tx.tx_type ≡ true
      → (reads_recipient tx.tx_type ≡ true → is_usable recipient ≡ true)
      → raised (validate_with p tx recipient) ≡ false
  validate_payload_quiet tx recipient g u = (frame-IsQuiet tx recipient g u).quiet
