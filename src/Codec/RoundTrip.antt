-- ===== src/Codec/RoundTrip.antt =====
-- network/codec.py: unpacking takes the packing of a message back.
use qbit_network.Common.{
  ℕ, suc, ◌<◌, true, List, Option, none, ◌≡◌, refl, ◌⊎◌, inl, inr, arith, ltb, All, Bool-cases, ap,
  ◌∙◌, if◌then◌else◌,
}
use qbit_network.Common.Hex.{from_hex, to_hex, from_hex-to_hex}
use qbit_network.Codec.{
  Key, Item, null, bool, int, number, text, bytes, ext, list, dict, Items, nil, cons, Fields, end,
  field, is_binary, pack_field, unpack_field, hex_to_bytes, hex_to_bytes_items, hex_to_bytes_fields,
  bytes_to_hex, bytes_to_hex_items, bytes_to_hex_fields,
}

-- A text that unpacking can restore: the hex of bytes as `bytes.hex` writes it, or no hex at all.
abbrev pub IsRestorable : List ℕ → Type 0
IsRestorable t = (from_hex t ≡ none) ⊎ ((b : List ℕ) × All (λ x. x < 256) b × (t ≡ to_hex b))

abbrev pub IsRestorableField : Key → Item → Type 0
IsRestorableField k (text t) = is_binary k ≡ true → IsRestorable t
IsRestorableField k v = Unit {0}

-- A message without bytes as values, and with restorable texts in the binary fields.
abbrev mutual
  pub IsSendable : Item → Type 0
  IsSendable (bytes b) = ⊥
  IsSendable (list xs) = AreSendable xs
  IsSendable (dict fs) = FieldsSendable fs
  IsSendable null = Unit {0}
  IsSendable (bool b) = Unit {0}
  IsSendable (int n) = Unit {0}
  IsSendable (number x) = Unit {0}
  IsSendable (text t) = Unit {0}
  IsSendable (ext code b) = Unit {0}

  pub AreSendable : Items → Type 0
  AreSendable nil = Unit {0}
  AreSendable (cons x xs) = IsSendable x × AreSendable xs

  pub FieldsSendable : Fields → Type 0
  FieldsSendable end = Unit {0}
  FieldsSendable (field k v fs) = IsRestorableField k v × IsSendable v × FieldsSendable fs

-- Packing makes bytes of no other value than a text in a binary field.
unpack_field-hex_to_bytes :
    (v otherwise : Item) (depth : ℕ)
    → IsSendable v
    → unpack_field (hex_to_bytes v depth) otherwise ≡ otherwise
unfolding unpack_field hex_to_bytes
unpack_field-hex_to_bytes (dict fs) o depth h = ground arith
unpack_field-hex_to_bytes (list xs) o depth h = ground arith
unpack_field-hex_to_bytes null o depth h = refl
unpack_field-hex_to_bytes (bool b) o depth h = refl
unpack_field-hex_to_bytes (int n) o depth h = refl
unpack_field-hex_to_bytes (number x) o depth h = refl
unpack_field-hex_to_bytes (text t) o depth h = refl
unpack_field-hex_to_bytes (ext code b) o depth h = refl
unpack_field-hex_to_bytes (bytes b) o depth h = absurd h

module _ (utf8_decode : List ℕ → Option (List ℕ)) where
  -- A text in a binary field.
  text_back :
      (t : List ℕ) (depth : ℕ)
      → IsRestorable t
      → let w = pack_field (text t) (text t) in
        unpack_field w (bytes_to_hex utf8_decode w depth) ≡ text t
  unfolding unpack_field pack_field bytes_to_hex
  text_back t depth (inl e) = rw e refl
  text_back t depth (inr (b, h, e)) = rw (e, from_hex-to_hex b h) refl

  binary_back :
      (k : Key) (v : Item) (depth : ℕ)
      → is_binary k ≡ true
      → IsRestorableField k v
      → IsSendable v
      → bytes_to_hex utf8_decode (hex_to_bytes v depth) depth ≡ v
      → let w = pack_field v (hex_to_bytes v depth) in
        unpack_field w (bytes_to_hex utf8_decode w depth) ≡ v
  unfolding pack_field
  binary_back k (text t) depth e r h ih = unfold hex_to_bytes in text_back t depth (r e)
  binary_back k (dict fs) depth e r h ih = unpack_field-hex_to_bytes (dict fs) _ depth h ∙ ih
  binary_back k (list xs) depth e r h ih = unpack_field-hex_to_bytes (list xs) _ depth h ∙ ih
  binary_back k null depth e r h ih = unpack_field-hex_to_bytes null _ depth h ∙ ih
  binary_back k (bool b) depth e r h ih = unpack_field-hex_to_bytes (bool b) _ depth h ∙ ih
  binary_back k (int n) depth e r h ih = unpack_field-hex_to_bytes (int n) _ depth h ∙ ih
  binary_back k (number x) depth e r h ih = unpack_field-hex_to_bytes (number x) _ depth h ∙ ih
  binary_back k (ext code b) depth e r h ih = unpack_field-hex_to_bytes (ext code b) _ depth h ∙ ih
  binary_back k (bytes b) depth e r h ih = absurd h

  field_back :
      (k : Key) (v : Item) (depth : ℕ)
      → IsRestorableField k v
      → IsSendable v
      → bytes_to_hex utf8_decode (hex_to_bytes v depth) depth ≡ v
      → let deeper = hex_to_bytes v depth in
        let w = if is_binary k then pack_field v deeper else deeper in
        let back = bytes_to_hex utf8_decode w depth in
        (if is_binary k then unpack_field w back else back) ≡ v
  field_back k v depth r h ih = elim (Bool-cases (is_binary k)) [
    | inl e ↦ rw e (binary_back k v depth e r h ih)
    | inr e ↦ rw e ih
  ]

  -- Unpacking at a depth takes back the packing at this depth.
  mutual
    unfolding hex_to_bytes bytes_to_hex

    pub unpack-pack :
        (v : Item) (depth : ℕ)
        → IsSendable v
        → bytes_to_hex utf8_decode (hex_to_bytes v depth) depth ≡ v
    unpack-pack (dict fs) depth h = elim (Bool-cases (ltb 10 depth)) [
      | inl deep ↦ rw (deep, deep) refl
      | inr shallow ↦ rw (shallow, shallow) (ap dict (unpack-pack_fields fs depth h))
    ]
    unpack-pack (list xs) depth h = elim (Bool-cases (ltb 10 depth)) [
      | inl deep ↦ rw (deep, deep) refl
      | inr shallow ↦ rw (shallow, shallow) (ap list (unpack-pack_items xs depth h))
    ]
    unpack-pack null depth h = refl
    unpack-pack (bool b) depth h = refl
    unpack-pack (int n) depth h = refl
    unpack-pack (number x) depth h = refl
    unpack-pack (text t) depth h = refl
    unpack-pack (ext code b) depth h = refl
    unpack-pack (bytes b) depth h = absurd h

    unpack-pack_items :
        (xs : Items) (depth : ℕ)
        → AreSendable xs
        → bytes_to_hex_items utf8_decode (hex_to_bytes_items xs depth) depth ≡ xs
    unpack-pack_items nil depth h = refl
    unpack-pack_items (cons x xs) depth h =
        cc (unpack-pack x (suc depth) h.0, unpack-pack_items xs depth h.1)

    unpack-pack_fields :
        (fs : Fields) (depth : ℕ)
        → FieldsSendable fs
        → bytes_to_hex_fields utf8_decode (hex_to_bytes_fields fs depth) depth ≡ fs
    unpack-pack_fields end depth h = refl
    unpack-pack_fields (field k v fs) depth h = cc (
      field_back k v (suc depth) h.0 h.1 (unpack-pack v (suc depth) h.1),
      unpack-pack_fields fs depth h.2,
    )
