-- ===== src/Codec/Wire.antt =====
-- MessageCodec of qbit_network/network/codec.py, and `P2PNode._read_message` of
-- qbit_network/network/p2p.py, on the bytes that the connection still holds. msgpack, json and the
-- UTF-8 decoder are parameters. The time limit of `readline` is left out; the limit of the reader is
-- the one that p2p.py opens its connections with.
use qbit_network.Common.{
  ℕ, suc, ◌+◌, ◌*◌, ◌/◌, ◌%◌, ◌^◌, String, Bool, ◌&&◌, ◌||◌, List, [], ◌∷◌, ◌++◌, Option, none,
  some, ltb, leb, ◌==◌, str_eq, if◌then◌else◌, length, take, drop,
}
use qbit_network.Common.Exec.{Result, ok, err}
use qbit_network.Codec.{name, raw, Item, text, dict, Fields, end, field, hex_to_bytes, bytes_to_hex}

-- What the codec calls: msgpack.packb and unpackb, json.dumps and its UTF-8, json.loads of a line
-- after decode and strip, and bytes.decode. `none` stands for any exception; `has_msgpack` tells
-- whether msgpack was imported.
pub record Backend : Type 0 where
  pub has_msgpack : Bool
  pub packb : Item → Option (List ℕ)
  pub unpackb : List ℕ → Option Item
  pub dumps : Item → Option (List ℕ)
  pub parse_line : List ℕ → Option Item
  pub utf8_decode : List ℕ → Option (List ℕ)

pub data WireFormat : Type 0 where
  json msgpack : WireFormat

-- The ValueErrors of the constructor and of `encode`, and an exception of packb or of dumps.
pub data CodecError : Type 0 where
  unknown_wire_format frame_too_large unserializable : CodecError

abbrev pub max_frame_size : ℕ
max_frame_size = 10 * 1024 * 1024

-- `MessageCodec(wire_format)`
unfoldable pub init : Backend → String → Result CodecError WireFormat
init b wire_format =
    if str_eq wire_format "json"
    then ok json
    else if str_eq wire_format "msgpack"
    then ok (if b.has_msgpack then msgpack else json)
    else err unknown_wire_format

unfoldable pub message : List ℕ → Fields → Item
message msg_type payload =
    dict (field (name "type") (text msg_type) (field (name "data") (dict payload) end))

-- `struct.pack(">I", n)`
unfoldable pub pack_u32 : ℕ → List ℕ
pack_u32 n = n / 2 ^ 24 % 256 ∷ n / 2 ^ 16 % 256 ∷ n / 2 ^ 8 % 256 ∷ n % 256 ∷ []

-- The frame of a payload.
unfoldable pub frame : List ℕ → Result CodecError (List ℕ)
frame payload =
    if ltb max_frame_size (length payload)
    then err frame_too_large
    else ok (pack_u32 (length payload) ++ payload)

abbrev pub frame_packed : Option (List ℕ) → Result CodecError (List ℕ)
frame_packed none = err unserializable
frame_packed (some payload) = frame payload

abbrev pub end_line : Option (List ℕ) → Result CodecError (List ℕ)
end_line none = err unserializable
end_line (some line) = ok (line ++ 10 ∷ [])

-- `encode`
unfoldable pub encode : Backend → WireFormat → List ℕ → Fields → Result CodecError (List ℕ)
encode b msgpack msg_type payload =
    frame_packed (b.packb (hex_to_bytes (message msg_type payload) 0))
encode b json msg_type payload = end_line (b.dumps (message msg_type payload))

-- `obj.get(k, d)` on a dict.
unfoldable pub get_field : String → Item → Fields → Item
get_field k d end = d
get_field k d (field (name j) v fs) = if str_eq j k then v else get_field k d fs
get_field k d (field (raw j) v fs) = get_field k d fs

-- The type and the data of a message; `none` where `get` is no method of the value.
unfoldable pub read_fields : Item → Option (Item × Item)
read_fields (dict fs) = some (get_field "type" (text []) fs, get_field "data" (dict end) fs)
read_fields _ = none

abbrev pub read_unpacked : Backend → Option Item → Option (Item × Item)
read_unpacked b none = none
read_unpacked b (some obj) = read_fields (bytes_to_hex b.utf8_decode obj 0)

abbrev pub read_parsed : Option Item → Option (Item × Item)
read_parsed none = none
read_parsed (some obj) = read_fields obj

-- `decode`, where every exception gives None.
unfoldable pub decode : Backend → WireFormat → List ℕ → Option (Item × Item)
decode b msgpack payload = read_unpacked b (b.unpackb payload)
decode b json line = read_parsed (b.parse_line line)

-- `MessageCodec.negotiate`
unfoldable pub negotiate : Backend → ℕ → ℕ → WireFormat → WireFormat → WireFormat
negotiate b local_version remote_version msgpack msgpack =
    if leb 4 local_version && leb 4 remote_version && b.has_msgpack then msgpack else json
negotiate b local_version remote_version _ _ = json

-- ---- P2PNode._read_message ----

-- What a read gives: a message, None, or an IncompleteReadError, an AttributeError or a ValueError.
pub data Read : Type 0 where
  got : Item → Item → Read
  nothing incomplete attribute_error value_error : Read

-- `_READER_LIMIT`
abbrev pub reader_limit : ℕ
reader_limit = 10 * 1024 * 1024

-- `int.from_bytes(header, 'big')`
unfoldable pub from_bytes : List ℕ → ℕ
from_bytes (a ∷ b ∷ c ∷ d ∷ []) = ((a * 256 + b) * 256 + c) * 256 + d
from_bytes _ = 0

abbrev pub got_or_nothing : Option (Item × Item) → Read
got_or_nothing none = nothing
got_or_nothing (some (t, d)) = got t d

-- `reader.readexactly(n)`: the bytes read, if there are enough before the end of the stream.
unfoldable pub read_exactly : ℕ → List ℕ → Option (List ℕ × List ℕ)
read_exactly n s = if ltb (length s) n then none else some (take n s, drop n s)

-- A line with its newline, or what there is at the end of the stream, and the rest.
unfoldable pub split_line : List ℕ → List ℕ × List ℕ
split_line [] = ([], [])
split_line (c ∷ s) =
    let (line, rest) = split_line s in if c == 10 then (c ∷ [], s) else (c ∷ line, rest)

-- How many bytes stand before the newline, or before the end of the stream.
unfoldable pub line_size : List ℕ → ℕ
line_size [] = 0
line_size (c ∷ s) = let rest = line_size s in if c == 10 then 0 else suc rest

-- `reader.readline()`; `none` is its ValueError, for a line over the limit of the reader.
unfoldable pub read_line : List ℕ → Option (List ℕ × List ℕ)
read_line s = if ltb reader_limit (line_size s) then none else some (split_line s)

-- `MessageCodec("msgpack").decode(payload)`, with the format that the constructor chose.
abbrev pub decode_by : Backend → Result CodecError WireFormat → List ℕ → Read
decode_by b (err e) payload = value_error
decode_by b (ok format) payload = got_or_nothing (decode b format payload)

unfoldable pub read_payload : Backend → Option (List ℕ × List ℕ) → Read × List ℕ
unfolding init
read_payload b none = (incomplete, [])
read_payload b (some (payload, rest)) = (decode_by b (init b "msgpack") payload, rest)

unfoldable pub read_frame : Backend → Option (List ℕ × List ℕ) → Read × List ℕ
unfolding from_bytes read_payload
read_frame b none = (incomplete, [])
read_frame b (some (header, rest)) =
    let n = from_bytes header in
    if n == 0 || ltb max_frame_size n then (nothing, rest) else read_payload b (read_exactly n rest)

-- A line that parses to no dict raises, since only the errors of the parser are caught.
abbrev pub read_object : Option Item → Read
read_object none = nothing
read_object (some obj) = elim (read_fields obj) [ none ↦ attribute_error | some (t, d) ↦ got t d ]

abbrev pub read_text : Backend → List ℕ → Read
read_text b [] = nothing
read_text b (c ∷ line) = read_object (b.parse_line (c ∷ line))

-- After a ValueError the callers drop the connection, so nothing of the stream is given back.
abbrev pub read_text_line : Backend → Option (List ℕ × List ℕ) → Read × List ℕ
read_text_line b none = (value_error, [])
read_text_line b (some (line, rest)) = (read_text b line, rest)

-- `_read_message`: the outcome and what is left of the stream.
unfoldable pub read_message : Backend → WireFormat → List ℕ → Read × List ℕ
read_message b msgpack s = read_frame b (read_exactly 4 s)
read_message b json s = read_text_line b (read_line s)
