-- ===== src/HeaderChain.antt =====
-- `Blockchain.validate_header_chain` of qbit_network/core/blockchain.py: the structural checks on the
-- headers that a peer sends. A header is a dict whose keys may be missing and whose index is any
-- JSON value; the other values have the types of `Block.to_header_dict`. `registry` is
-- `_validator_registry`.
pub mod Linked
mod Examples
use qbit_network.Common.{
  ℕ, String, Bool, true, false, not, ◌&&◌, List, [], ◌∷◌, Option, none, some, if◌then◌else◌, str_eq,
}
use qbit_network.Common.Dict.{Dict, contains, string_eq}
use qbit_network.Common.Exec.{Result, ok, err, accept, refuse_if}
use qbit_network.Common.Int.{ℤ, pos, ◌+ℤ◌, ltb_ℤ, eqb_ℤ}
use qbit_network.Transaction.{Value, as_int}

pub record HeaderDict : Type 0 where
  pub index : Option Value
  pub timestamp : Option ℤ
  pub prev_hash : Option String
  pub hash : Option String
  pub validator : Option String

-- A header whose keys are there and whose index is an integer.
pub record Header : Type 0 where
  pub index : ℤ
  pub timestamp : ℤ
  pub prev_hash : String
  pub hash : String
  pub validator : String

-- The messages, without what they name.
pub data HeaderRefusal : Type 0 where
  missing_field invalid_index not_connected broken_linkage not_consecutive : HeaderRefusal
  not_monotonic unknown_validator : HeaderRefusal

abbrev pub with_index : Option ℤ → ℤ → String → String → String → Result HeaderRefusal Header
with_index none timestamp prev_hash hash validator = err invalid_index
with_index (some index) timestamp prev_hash hash validator =
    if ltb_ℤ index (pos 0)
    then err invalid_index
    else ok (record {
      index = index;
      timestamp = timestamp;
      prev_hash = prev_hash;
      hash = hash;
      validator = validator;
    })

abbrev pub with_fields :
    Option Value
    → Option ℤ
    → Option String
    → Option String
    → Option String
    → Result HeaderRefusal Header
with_fields (some index) (some timestamp) (some prev_hash) (some hash) (some validator) =
    with_index (as_int index) timestamp prev_hash hash validator
with_fields _ _ _ _ _ = err missing_field

-- "Basic field validation"
unfoldable pub read_header : HeaderDict → Result HeaderRefusal Header
read_header h = with_fields h.index h.timestamp h.prev_hash h.hash h.validator

-- `validator and hdr["index"] > 0` and no such validator
unfoldable pub is_unknown : Dict String (List ℕ) → Header → Bool
is_unknown registry h =
    not (str_eq h.validator "") && ltb_ℤ (pos 0) h.index && not (contains h.validator registry)

-- The checks of the first header, after the fields.
unfoldable pub check_first :
    Dict String (List ℕ)
    → String
    → Header
    → Result HeaderRefusal (Unit {0})
    → Result HeaderRefusal (Unit {0})
check_first registry start_prev_hash h rest =
    refuse_if (not (str_eq start_prev_hash "") && not (str_eq h.prev_hash start_prev_hash))
      not_connected (refuse_if (is_unknown registry h) unknown_validator rest)

-- The checks of a later header, after the fields.
unfoldable pub check_next :
    Dict String (List ℕ)
    → Header
    → Header
    → Result HeaderRefusal (Unit {0})
    → Result HeaderRefusal (Unit {0})
check_next registry prev h rest = refuse_if (not (str_eq h.prev_hash prev.hash)) broken_linkage (
    refuse_if (not (eqb_ℤ h.index (prev.index +ℤ pos 1))) not_consecutive (
      refuse_if (ltb_ℤ h.timestamp prev.timestamp) not_monotonic
        (refuse_if (is_unknown registry h) unknown_validator rest)))

-- A header that was read, and how its checks and the loop go on.
abbrev pub on_header :
    Result HeaderRefusal Header
    → (Header → Result HeaderRefusal (Unit {0}))
    → Result HeaderRefusal (Unit {0})
on_header (err r) k = err r
on_header (ok h) k = k h

-- The loop from the second header on.
unfoldable pub check_rest :
    Dict String (List ℕ) → Header → List HeaderDict → Result HeaderRefusal (Unit {0})
check_rest registry prev [] = accept
check_rest registry prev (d ∷ ds) =
    on_header (read_header d) (λ h. check_next registry prev h (check_rest registry h ds))

unfoldable pub validate_header_chain :
    Dict String (List ℕ) → List HeaderDict → String → Result HeaderRefusal (Unit {0})
validate_header_chain registry [] start_prev_hash = accept
validate_header_chain registry (d ∷ ds) start_prev_hash =
    on_header (read_header d)
      (λ h. check_first registry start_prev_hash h (check_rest registry h ds))
