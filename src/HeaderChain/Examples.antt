-- ===== src/HeaderChain/Examples.antt =====
-- A chain of two headers.
use qbit_network.Common.{ℕ, String, List, [], ◌∷◌, map, ◌≡◌, ◌↔◌, refl}
use qbit_network.Common.Dict.{Dict, lookup, string_eq}
use qbit_network.Common.Exec.{accept}
use qbit_network.Common.Int.{pos, ◌+ℤ◌}
use qbit_network.HeaderChain.{
  Header, read_header, is_unknown, check_first, check_next, check_rest, validate_header_chain,
}
use qbit_network.HeaderChain.Linked.{dict_of, IsLinkedChain, validate_header_chain-IsLinkedChain}

abbrev registry : Dict String (List ℕ)
registry = ("v", 1 ∷ []) ∷ []

abbrev headers : List Header
headers =
    record { index = pos 3; timestamp = pos 10; prev_hash = "a"; hash = "b"; validator = "v" }
    ∷ record { index = pos 4; timestamp = pos 10; prev_hash = "b"; hash = "c"; validator = "v" }
    ∷ []

accepted : validate_header_chain registry (map dict_of headers) "a" ≡ accept
unfolding validate_header_chain check_first check_rest check_next read_header is_unknown lookup ◌+ℤ◌
accepted = refl

validate_header_chain-IsLinkedChain_example :
    (validate_header_chain registry (map dict_of headers) "a" ≡ accept)
    ↔ IsLinkedChain registry headers "a"
validate_header_chain-IsLinkedChain_example =
    validate_header_chain-IsLinkedChain registry headers "a"
