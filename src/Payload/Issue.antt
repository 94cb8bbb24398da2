-- ===== src/Payload/Issue.antt =====
-- The branch ISSUE_TOKEN of validate_payload.
use qbit_network.Common.{
  ℕ, String, Bool, false, not, ◌&&◌, ◌||◌, List, [], ◌∷◌, Option, none, some, ltb, leb, str_eq,
  length,
}
use qbit_network.Common.Int.{pos, ltb_ℤ}
use qbit_network.Common.Dict.{Dict, lookup, get_or, string_eq}
use qbit_network.Common.Exec.{err}
use qbit_network.Common.Hex.{codes}
use qbit_network.Config.{
  max_token_name_length, max_token_symbol_length, min_token_symbol_length, max_token_decimals,
}
use qbit_network.Transaction.{Value}
use qbit_network.Payload.{
  Refusal, Checked, accept, refuse_if, or_empty, require_int, require_text, matches,
}

abbrev pub is_upper : ℕ → Bool
is_upper c = leb b'A' c && leb c b'Z'

abbrev pub is_digit : ℕ → Bool
is_digit c = leb b'0' c && leb c b'9'

abbrev is_name_character : ℕ → Bool
is_name_character c = leb b'a' c && leb c b'z' || is_upper c || is_digit c || ltb 31 c && ltb c 33

-- `_NAME_RE`
unfoldable pub matches_name : List ℕ → Bool
matches_name name = matches is_name_character name

-- `_SYMBOL_RE`
unfoldable pub matches_symbol : List ℕ → Bool
matches_symbol [] = false
matches_symbol (c ∷ r) = is_upper c && matches (λ d. is_upper d || is_digit d) r

-- `transferable`, a Boolean if it is given.
unfoldable pub check_transferable : Option Value → Checked
check_transferable none = accept
check_transferable (some (Value.bool b)) = accept
check_transferable (some v) = err Refusal.transferable_invalid

unfoldable pub check_issue_token : Dict String Value → Checked
check_issue_token payload =
    require_text (or_empty (lookup "name" payload)) Refusal.name_empty λ name.
      refuse_if (ltb max_token_name_length (length (codes name))) Refusal.name_too_long (
        refuse_if (not (matches_name (codes name))) Refusal.name_invalid (
          require_text (or_empty (lookup "symbol" payload)) Refusal.symbol_empty λ symbol.
            refuse_if (ltb (length (codes symbol)) min_token_symbol_length) Refusal.symbol_too_short
              (refuse_if (ltb max_token_symbol_length (length (codes symbol)))
                Refusal.symbol_too_long
                (refuse_if (not (matches_symbol (codes symbol))) Refusal.symbol_invalid (
                  refuse_if (str_eq symbol "QBIT") Refusal.symbol_reserved
                    (check_numbers payload))))))
  where
    check_numbers : Dict String Value → Checked
    check_numbers payload =
        require_int (lookup "decimals" payload) Refusal.decimals_invalid λ decimals.
          refuse_if (ltb_ℤ decimals (pos 0) || ltb_ℤ (pos max_token_decimals) decimals)
            Refusal.decimals_invalid
            (require_int (some (get_or "max_supply" (Value.int (pos 0)) payload))
              Refusal.max_supply_invalid
              λ max_supply.
                refuse_if (ltb_ℤ max_supply (pos 0)) Refusal.max_supply_invalid
                  (check_transferable (lookup "transferable" payload)))
