-- ===== src/Codec/Plain.antt =====
-- network/codec.py: what unpacking leaves of a message is JSON.
use qbit_network.Common.{
  ℕ, suc, ◌+◌, ◌≤◌, max, Bool, true, false, List, Option, none, some, ◌≡◌, arith, ltb,
  if◌then◌else◌,
}
use qbit_network.Codec.{
  Key, name, raw, Item, null, bool, int, number, text, bytes, ext, list, dict, Items, nil, cons,
  Fields, end, field, is_binary, unpack_field, decode_or_hex, bytes_to_hex, bytes_to_hex_items,
  bytes_to_hex_fields,
}

-- A key of JSON.
abbrev pub IsNamed : Key → Type 0
IsNamed (name k) = Unit {0}
IsNamed (raw k) = ⊥

-- What JSON can hold: no bytes and no extension type, and texts for keys.
abbrev mutual
  pub IsJson : Item → Type 0
  IsJson (bytes b) = ⊥
  IsJson (ext code b) = ⊥
  IsJson (list xs) = AreJson xs
  IsJson (dict fs) = FieldsJson fs
  IsJson null = Unit {0}
  IsJson (bool b) = Unit {0}
  IsJson (int n) = Unit {0}
  IsJson (number x) = Unit {0}
  IsJson (text t) = Unit {0}

  pub AreJson : Items → Type 0
  AreJson nil = Unit {0}
  AreJson (cons x xs) = IsJson x × AreJson xs

  pub FieldsJson : Fields → Type 0
  FieldsJson end = Unit {0}
  FieldsJson (field k v fs) = IsNamed k × IsJson v × FieldsJson fs

-- The same, but for bytes as values.
abbrev mutual
  pub IsCommon : Item → Type 0
  IsCommon (ext code b) = ⊥
  IsCommon (list xs) = AreCommon xs
  IsCommon (dict fs) = FieldsCommon fs
  IsCommon null = Unit {0}
  IsCommon (bool b) = Unit {0}
  IsCommon (int n) = Unit {0}
  IsCommon (number x) = Unit {0}
  IsCommon (text t) = Unit {0}
  IsCommon (bytes b) = Unit {0}

  pub AreCommon : Items → Type 0
  AreCommon nil = Unit {0}
  AreCommon (cons x xs) = IsCommon x × AreCommon xs

  pub FieldsCommon : Fields → Type 0
  FieldsCommon end = Unit {0}
  FieldsCommon (field k v fs) = IsNamed k × IsCommon v × FieldsCommon fs

-- How many lists and dicts lie around the innermost value.
abbrev mutual
  pub nesting : Item → ℕ
  nesting (list xs) = suc (nesting_items xs)
  nesting (dict fs) = suc (nesting_fields fs)
  nesting null = 0
  nesting (bool b) = 0
  nesting (int n) = 0
  nesting (number x) = 0
  nesting (text t) = 0
  nesting (bytes b) = 0
  nesting (ext code b) = 0

  pub nesting_items : Items → ℕ
  nesting_items nil = 0
  nesting_items (cons x xs) = max (nesting x) (nesting_items xs)

  pub nesting_fields : Fields → ℕ
  nesting_fields end = 0
  nesting_fields (field k v fs) = max (nesting v) (nesting_fields fs)

unpack_field-IsJson : (v otherwise : Item) → IsJson otherwise → IsJson (unpack_field v otherwise)
unfolding unpack_field
unpack_field-IsJson (bytes b) o h = tt
unpack_field-IsJson (list xs) o h = h
unpack_field-IsJson (dict fs) o h = h
unpack_field-IsJson null o h = h
unpack_field-IsJson (bool b) o h = h
unpack_field-IsJson (int n) o h = h
unpack_field-IsJson (number x) o h = h
unpack_field-IsJson (text t) o h = h
unpack_field-IsJson (ext code b) o h = h

either-IsJson :
    (b : Bool) (v otherwise : Item)
    → IsJson otherwise
    → IsJson (if b then unpack_field v otherwise else otherwise)
either-IsJson true v o h = unpack_field-IsJson v o h
either-IsJson false v o h = h

decoded-IsJson : (b : List ℕ) (o : Option (List ℕ)) → IsJson (decode_or_hex (λ x. o) b o)
decoded-IsJson b none = tt
decoded-IsJson b (some t) = tt

module _ (utf8_decode : List ℕ → Option (List ℕ)) where
  mutual
    unfolding bytes_to_hex

    pub plain :
        (v : Item) (depth : ℕ)
        → IsCommon v
        → nesting v + depth ≤ 10
        → IsJson (bytes_to_hex utf8_decode v depth)
    plain (dict fs) depth p h =
        let shallow : ltb 10 depth ≡ false = ground arith in
        rw shallow (plain_fields fs depth p (omega arith))
    plain (list xs) depth p h =
        let shallow : ltb 10 depth ≡ false = ground arith in
        rw shallow (plain_items xs depth p (omega arith))
    plain (bytes b) depth p h =
        let shallow : ltb 10 depth ≡ false = ground arith in
        rw shallow (decoded-IsJson b (utf8_decode b))
    plain null depth p h = tt
    plain (bool b) depth p h = tt
    plain (int n) depth p h = tt
    plain (number x) depth p h = tt
    plain (text t) depth p h = tt
    plain (ext code b) depth p h = absurd p

    plain_items :
        (xs : Items) (depth : ℕ)
        → AreCommon xs
        → nesting_items xs + suc depth ≤ 10
        → AreJson (bytes_to_hex_items utf8_decode xs depth)
    plain_items nil depth p h = tt
    plain_items (cons x xs) depth p h =
        (plain x (suc depth) p.0 (omega arith), plain_items xs depth p.1 (omega arith))

    plain_fields :
        (fs : Fields) (depth : ℕ)
        → FieldsCommon fs
        → nesting_fields fs + suc depth ≤ 10
        → FieldsJson (bytes_to_hex_fields utf8_decode fs depth)
    plain_fields end depth p h = tt
    plain_fields (field k v fs) depth p h = (
      p.0,
      either-IsJson (is_binary k) v (bytes_to_hex utf8_decode v (suc depth))
          (plain v (suc depth) p.1 (omega arith)),
      plain_fields fs depth p.2 (omega arith),
    )
