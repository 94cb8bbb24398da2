-- ===== src/Codec/Decoded.antt =====
-- network/codec.py: what `decode` returns is JSON.
use mathlib.Core.Path.{subst}
use qbit_network.Common.{[], ℕ, ◌≤◌, String, List, some, ◌≡◌, arith}
use qbit_network.Codec.{
  name, raw, Item, null, bool, int, number, text, bytes, ext, list, dict, Fields, end, field,
  bytes_to_hex,
}
use qbit_network.Codec.Plain.{IsJson, IsCommon, FieldsJson, nesting, plain}
use qbit_network.Codec.Wire.{Backend, msgpack, get_field, read_fields, decode}

get_field-IsJson :
    (k : String) (d : Item) (fs : Fields) → IsJson d → FieldsJson fs → IsJson (get_field k d fs)
unfolding get_field
get_field-IsJson k d end h g = h
get_field-IsJson k d (field (name j) v fs) h g = ground (arith, get_field-IsJson k d fs h g.2)
get_field-IsJson k d (field (raw j) v fs) h g = absurd g.0

read_fields-IsJson :
    (v : Item) (t d : Item) → IsJson v → read_fields v ≡ some (t, d) → IsJson t × IsJson d
unfolding read_fields
read_fields-IsJson (dict fs) t d h e =
    let is_type : get_field "type" (text []) fs ≡ t = cc in
    let is_data : get_field "data" (dict end) fs ≡ d = cc in
    (
      subst IsJson is_type (get_field-IsJson "type" (text []) fs tt h),
      subst IsJson is_data (get_field-IsJson "data" (dict end) fs tt h),
    )
read_fields-IsJson null t d h e = cc
read_fields-IsJson (bool x) t d h e = cc
read_fields-IsJson (int n) t d h e = cc
read_fields-IsJson (number x) t d h e = cc
read_fields-IsJson (text x) t d h e = cc
read_fields-IsJson (bytes x) t d h e = cc
read_fields-IsJson (list x) t d h e = cc
read_fields-IsJson (ext code x) t d h e = absurd h

-- The type and the data that `decode` reads from a msgpack payload hold no bytes and are JSON, when
-- what msgpack unpacks is at most ten lists and dicts deep, has texts for all keys and no extension
-- type.
pub decode-IsJson :
    (b : Backend) (payload : List ℕ) (obj t d : Item)
    → b.unpackb payload ≡ some obj
    → IsCommon obj
    → nesting obj ≤ 10
    → decode b msgpack payload ≡ some (t, d)
    → IsJson t × IsJson d
unfolding decode
decode-IsJson b payload obj t d unpacked common shallow h =
    read_fields-IsJson (bytes_to_hex b.utf8_decode obj 0) t d
      (plain b.utf8_decode obj 0 common (omega arith)) (rw unpacked at h)
