-- ===== src/Common/Hex.antt =====
-- `bytes.fromhex` of Python: pairs of hex digits, with ASCII whitespace allowed between the pairs,
-- where `none` stands for its ValueError; and `bytes.hex`.
use Prim.Native.Nat.{ℕ, ◌+◌, ◌-◌, ◌*◌, ◌/◌, ◌%◌, ◌<◌}
use Prim.Native.Char.{code}
use Prim.Native.String.{String}
use mathlib.Core.Path.{◌≡◌, refl}
use mathlib.Core.Bool.{Bool, false, ◌&&◌, ◌||◌}
use mathlib.Core.List.{List, [], ◌∷◌}
use mathlib.Core.Option.{Option, none, some}
use native.Mathlib.Omega.{arith}
use qbit_network.Common.Lists.{All}
use qbit_network.Common.Tests.{ltb, leb, ◌==◌, if◌then◌else◌}

-- The characters of a text by their code points.
abbrev pub codes : String → List ℕ
codes String.[] = []
codes (String.◌∷◌ c s) = code c ∷ codes s

unfoldable pub hex_digit : ℕ → Option ℕ
hex_digit c =
    if leb b'0' c && leb c b'9'
    then some (c - b'0')
    else if leb b'a' c && leb c b'f'
    then some (c - b'a' + 10)
    else if leb b'A' c && leb c b'F'
    then some (c - b'A' + 10)
    else none

abbrev is_space : ℕ → Bool
is_space c = c == 32 || leb 9 c && leb c 13

abbrev hex_pair : Option ℕ → Option ℕ → Option (List ℕ) → Option (List ℕ)
hex_pair (some hi) (some lo) (some rest) = some ((hi * 16 + lo) ∷ rest)
hex_pair _ _ _ = none

unfoldable pub from_hex : List ℕ → Option (List ℕ)
unfolding hex_digit
from_hex [] = some []
from_hex (c ∷ []) = if is_space c then some [] else none
from_hex (c ∷ d ∷ r) =
    let shorter = from_hex (d ∷ r) in
    let rest = from_hex r in
    if is_space c then shorter else hex_pair (hex_digit c) (hex_digit d) rest

-- The digit of a number below 16.
unfoldable pub hex_char : ℕ → ℕ
hex_char n = if ltb n 10 then n + b'0' else n - 10 + b'a'

-- `bytes.hex`
unfoldable pub to_hex : List ℕ → List ℕ
unfolding hex_char
to_hex [] = []
to_hex (b ∷ l) = hex_char (b / 16) ∷ hex_char (b % 16) ∷ to_hex l

hex_digit-hex_char : (n : ℕ) → n < 16 → hex_digit (hex_char n) ≡ some n
unfolding hex_digit hex_char
hex_digit-hex_char n h = ground arith

is_space-hex_char : (n : ℕ) → n < 16 → is_space (hex_char n) ≡ false
unfolding hex_char
is_space-hex_char n h = ground arith

pub from_hex-to_hex : (l : List ℕ) → All (λ b. b < 256) l → from_hex (to_hex l) ≡ some l
unfolding from_hex to_hex
from_hex-to_hex [] h = refl
from_hex-to_hex (b ∷ l) h =
    rw
      (
        is_space-hex_char (b / 16) (omega arith),
        hex_digit-hex_char (b / 16) (omega arith),
        hex_digit-hex_char (b % 16) (omega arith),
        from_hex-to_hex l h.1,
      )
      (ground arith)

pairs : from_hex (codes "0aF f") ≡ none
unfolding from_hex
pairs = refl

spaced : from_hex (codes "0aF f 10") ≡ none
unfolding from_hex
spaced = refl

separated : from_hex (codes "0A ff") ≡ some (10 ∷ 255 ∷ [])
unfolding from_hex
separated = refl
