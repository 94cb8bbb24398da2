-- ===== src/Codec/Examples.antt =====
-- A message on the wire, over a toy backend that knows it.
use qbit_network.Common.{ℕ, true, List, [], ◌∷◌, ◌++◌, Option, none, some, ◌≡◌, refl, arith, inr}
use qbit_network.Common.Int.{pos}
use qbit_network.Common.Exec.{ok}
use qbit_network.Common.Hex.{from_hex, to_hex}
use qbit_network.Staking.{member}
use qbit_network.Codec.{
  name, raw, ext, Item, int, text, bytes, dict, Fields, end, field, is_binary, pack_field,
  unpack_field, hex_to_bytes, bytes_to_hex,
}
use qbit_network.Codec.Wire.{
  Backend, msgpack, message, encode, frame, pack_u32, got, read_message, decode, get_field,
  read_fields,
}
use qbit_network.Codec.Plain.{IsJson, IsCommon}
use qbit_network.Codec.Framing.{read_message-encode}
use qbit_network.Codec.Decoded.{decode-IsJson}

-- {"signature": "0aff"}
abbrev signed : Fields
signed = field (name "signature") (text (48 ∷ 97 ∷ 102 ∷ 102 ∷ [])) end

-- "tx"
abbrev tx_type : List ℕ
tx_type = 116 ∷ 120 ∷ []

-- What msgpack packs of the message.
abbrev packed : Item
packed = dict (
    field (name "type") (text tx_type)
      (field (name "data") (dict (field (name "signature") (bytes (10 ∷ 255 ∷ [])) end)) end))

abbrev toy : Backend
toy = record {
  has_msgpack = true;
  packb = λ v. some (1 ∷ 2 ∷ []);
  unpackb = λ l. some packed;
  dumps = λ v. some (123 ∷ 125 ∷ []);
  parse_line = λ l. some (message tx_type signed);
  utf8_decode = λ l. none;
}

packs : hex_to_bytes (message tx_type signed) 0 ≡ packed
unfolding hex_to_bytes message pack_field is_binary member from_hex
packs = refl

unpacks : ◌≡◌ {A = Option Item} (some packed) (some (hex_to_bytes (message tx_type signed) 0))
unfolding hex_to_bytes message pack_field is_binary member from_hex
unpacks = refl

framed : encode toy msgpack tx_type signed ≡ ok (0 ∷ 0 ∷ 0 ∷ 2 ∷ 1 ∷ 2 ∷ [])
unfolding encode frame pack_u32
framed = refl

is_hex : 48 ∷ 97 ∷ 102 ∷ 102 ∷ [] ≡ to_hex (10 ∷ 255 ∷ [])
unfolding to_hex
is_hex = refl

read_message-encode_example :
    read_message toy msgpack ((0 ∷ 0 ∷ 0 ∷ 2 ∷ 1 ∷ 2 ∷ []) ++ 0 ∷ 9 ∷ [])
    ≡ (got (text tx_type) (dict signed), 0 ∷ 9 ∷ [])
read_message-encode_example =
    read_message-encode toy msgpack tx_type signed (0 ∷ 0 ∷ 0 ∷ 2 ∷ 1 ∷ 2 ∷ []) (0 ∷ 9 ∷ [])
      ((λ e. inr (10 ∷ 255 ∷ [], omega arith, is_hex)), tt, tt)
      (refl, (1 ∷ 2 ∷ [], refl, unpacks, omega arith)) framed

decoded : decode toy msgpack (1 ∷ 2 ∷ []) ≡ some (text tx_type, dict signed)
unfolding decode bytes_to_hex read_fields get_field is_binary member unpack_field to_hex
decoded = refl

common : IsCommon packed
common = (tt, tt, (tt, (tt, tt, tt), tt))

decode-IsJson_example : IsJson (text tx_type) × IsJson (dict signed)
decode-IsJson_example =
    decode-IsJson toy (1 ∷ 2 ∷ []) packed (text tx_type) (dict signed) refl common (omega arith)
      decoded

-- Upper-case hex comes back in lower case.
lowered :
    bytes_to_hex
      (λ l. none)
      (hex_to_bytes (dict (field (name "signature") (text (48 ∷ 65 ∷ [])) end)) 0)
      0
    ≡ dict (field (name "signature") (text (48 ∷ 97 ∷ [])) end)
unfolding hex_to_bytes bytes_to_hex pack_field unpack_field is_binary member from_hex to_hex
lowered = refl

-- A key of bytes and an extension type stay as they are, so that JSON cannot write them.
untouched :
    bytes_to_hex
      (λ l. none)
      (dict (field (raw (255 ∷ [])) (int (pos 1)) (field (name "type") (ext (pos 5) (1 ∷ [])) end)))
      0
    ≡ dict (field (raw (255 ∷ [])) (int (pos 1)) (field (name "type") (ext (pos 5) (1 ∷ [])) end))
unfolding bytes_to_hex is_binary member
untouched = refl
