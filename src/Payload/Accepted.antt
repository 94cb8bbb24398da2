-- ===== src/Payload/Accepted.antt =====
-- What an accepted check says, for each of the checks that the branches share.
use qbit_network.Common.{
  ℕ, ◌≤◌, String, true, false, not, Option, none, some, ◌≡◌, str_eq, ltb, length, arith,
}
use qbit_network.Common.Int.{ℤ}
use qbit_network.Common.Exec.{err}
use qbit_network.Common.Hex.{codes}
use qbit_network.Transaction.{Value, value_int, value_text}
use qbit_network.Payload.{
  Refusal, Checked, accept, refuse_if_lem, or_empty, matches_hex, require_hex, require_int,
  require_text, optional_text, truthy,
}

pub require_int_lem :
    (o : Option Value) (r : Refusal) (k : ℤ → Checked)
    → require_int o r k ≡ accept
    → k (value_int o) ≡ accept
require_int_lem none r k h = cc
require_int_lem (some Value.null) r k h = cc
require_int_lem (some (Value.other b)) r k h = cc
require_int_lem (some (Value.bool true)) r k h = h
require_int_lem (some (Value.bool false)) r k h = h
require_int_lem (some (Value.int n)) r k h = h
require_int_lem (some (Value.text s)) r k h = cc

pub require_text_lem :
    (o : Option Value) (r : Refusal) (k : String → Checked)
    → require_text (or_empty o) r k ≡ accept
    → (str_eq (value_text o) "" ≡ false) × (k (value_text o) ≡ accept)
require_text_lem none r k h = cc
require_text_lem (some Value.null) r k h = cc
require_text_lem (some (Value.other b)) r k h = cc
require_text_lem (some (Value.bool b)) r k h = cc
require_text_lem (some (Value.int n)) r k h = cc
require_text_lem (some (Value.text s)) r k h = refuse_if_lem (str_eq s "") r (k s) h

-- The rest of the checks goes on after a text that may be left out.
pub optional_text_lem :
    (o : Option Value) (limit : ℕ) (r q : Refusal) (k : Checked)
    → optional_text o limit r q k ≡ accept
    → (length (codes (value_text o)) ≤ limit) × (k ≡ accept)
optional_text_lem none limit r q k h = (omega arith, h)
optional_text_lem (some Value.null) limit r q k h = (omega arith, h)
optional_text_lem (some (Value.other b)) limit r q k h = cc
optional_text_lem (some (Value.bool b)) limit r q k h = cc
optional_text_lem (some (Value.int n)) limit r q k h = cc
optional_text_lem (some (Value.text s)) limit r q k h =
    let (short, rest) = refuse_if_lem (ltb limit (length (codes s))) q k h in (ground arith, rest)

-- The text behind a test for hex digits, with what the test saw.
pub require_hex_lem :
    (o : Option Value) (r : Refusal) (k : String → Checked)
    → require_hex (or_empty o) r k ≡ accept
    → (matches_hex (codes (value_text o)) ≡ true) × (k (value_text o) ≡ accept)
unfolding matches_hex
require_hex_lem none r k h = cc
require_hex_lem (some Value.null) r k h = cc
require_hex_lem (some (Value.other b)) r k h =
    let (_, never) = refuse_if_lem (not b) r (err Refusal.type_error) h in cc
require_hex_lem (some (Value.bool b)) r k h =
    let (_, never) = refuse_if_lem (not b) r (err Refusal.type_error) h in cc
require_hex_lem (some (Value.int n)) r k h =
    let (_, never) = refuse_if_lem (not (truthy (Value.int n))) r (err Refusal.type_error) h in cc
require_hex_lem (some (Value.text s)) r k h =
    let (digits, rest) = refuse_if_lem (not (matches_hex (codes s))) r (k s) h in
    (ground arith, rest)
