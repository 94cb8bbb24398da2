-- ===== src/Codec.antt =====
-- qbit_network/network/codec.py: the values of a message and the change between hex texts and bytes
-- around msgpack. A Python str is its code points.

pub mod Plain
pub mod Wire
pub mod RoundTrip
pub mod Framing
pub mod Decoded
mod Examples
use qbit_network.Common.{
  ℕ, suc, String, Bool, true, false, List, [], ◌∷◌, Option, none, some, ltb, if◌then◌else◌,
}
use qbit_network.Common.Hex.{from_hex, to_hex}
use qbit_network.Common.Int.{ℤ}
use qbit_network.Staking.{member}

-- The key of a dict: msgpack gives a str or bytes.
pub data Key : Type 0 where
  name : String → Key
  raw : List ℕ → Key

-- The value of a message: JSON, bytes, and what msgpack unpacks of an extension type, which holds its
-- code and its bytes. `number` is a float, by the text that stands for it.
mutual
  pub data Item : Type 0 where
    null : Item
    bool : Bool → Item
    int : ℤ → Item
    number : List ℕ → Item
    text : List ℕ → Item
    bytes : List ℕ → Item
    ext : ℤ → List ℕ → Item
    list : Items → Item
    dict : Fields → Item

  pub data Items : Type 0 where
    nil : Items
    cons : Item → Items → Items

  pub data Fields : Type 0 where
    end : Fields
    field : Key → Item → Fields → Fields

-- `_BINARY_FIELDS`
abbrev pub binary_fields : List String
binary_fields =
    "signature" ∷ "sender_pubkey" ∷ "signing_pk" ∷ "encryption_pk" ∷ "challenge" ∷ "challenge_sig"
    ∷ "counter_challenge" ∷ "ciphertext" ∷ "validator_pubkey" ∷ []

-- `k in _BINARY_FIELDS`
unfoldable pub is_binary : Key → Bool
is_binary (name k) = member k binary_fields
is_binary (raw k) = false

abbrev pub or_text : List ℕ → Option (List ℕ) → Item
or_text t none = text t
or_text t (some b) = bytes b

-- The field of a key in _BINARY_FIELDS, before packing: `otherwise` is the value by recursion.
unfoldable pub pack_field : Item → Item → Item
pack_field (text t) otherwise = or_text t (from_hex t)
pack_field _ otherwise = otherwise

-- The same after unpacking.
unfoldable pub unpack_field : Item → Item → Item
unpack_field (bytes b) otherwise = text (to_hex b)
unpack_field _ otherwise = otherwise

-- `_hex_to_bytes_recursive(obj, depth)`
unfoldable mutual
  pub hex_to_bytes : Item → ℕ → Item
  hex_to_bytes (dict fs) depth =
      if ltb 10 depth then dict fs else dict (hex_to_bytes_fields fs depth)
  hex_to_bytes (list xs) depth =
      if ltb 10 depth then list xs else list (hex_to_bytes_items xs depth)
  hex_to_bytes null depth = null
  hex_to_bytes (bool b) depth = bool b
  hex_to_bytes (int n) depth = int n
  hex_to_bytes (number x) depth = number x
  hex_to_bytes (text t) depth = text t
  hex_to_bytes (bytes b) depth = bytes b
  hex_to_bytes (ext code b) depth = ext code b

  pub hex_to_bytes_items : Items → ℕ → Items
  hex_to_bytes_items nil depth = nil
  hex_to_bytes_items (cons x xs) depth =
      cons (hex_to_bytes x (suc depth)) (hex_to_bytes_items xs depth)

  pub hex_to_bytes_fields : Fields → ℕ → Fields
  hex_to_bytes_fields end depth = end
  hex_to_bytes_fields (field k v fs) depth =
      let deeper = hex_to_bytes v (suc depth) in
      field k (if is_binary k then pack_field v deeper else deeper) (hex_to_bytes_fields fs depth)

-- `bytes.decode('utf-8')`; `none` is its UnicodeDecodeError.
module _ (utf8_decode : List ℕ → Option (List ℕ)) where
  abbrev pub decode_or_hex : List ℕ → Option (List ℕ) → Item
  decode_or_hex b none = text (to_hex b)
  decode_or_hex b (some t) = text t

  -- `_bytes_to_hex_recursive(obj, depth)`
  unfoldable mutual
    pub bytes_to_hex : Item → ℕ → Item
    bytes_to_hex (dict fs) depth =
        if ltb 10 depth then dict fs else dict (bytes_to_hex_fields fs depth)
    bytes_to_hex (list xs) depth =
        if ltb 10 depth then list xs else list (bytes_to_hex_items xs depth)
    bytes_to_hex (bytes b) depth = if ltb 10 depth then bytes b else decode_or_hex b (utf8_decode b)
    bytes_to_hex null depth = null
    bytes_to_hex (bool b) depth = bool b
    bytes_to_hex (int n) depth = int n
    bytes_to_hex (number x) depth = number x
    bytes_to_hex (text t) depth = text t
    bytes_to_hex (ext code b) depth = ext code b

    pub bytes_to_hex_items : Items → ℕ → Items
    bytes_to_hex_items nil depth = nil
    bytes_to_hex_items (cons x xs) depth =
        cons (bytes_to_hex x (suc depth)) (bytes_to_hex_items xs depth)

    pub bytes_to_hex_fields : Fields → ℕ → Fields
    bytes_to_hex_fields end depth = end
    bytes_to_hex_fields (field k v fs) depth =
        let deeper = bytes_to_hex v (suc depth) in
        field k (if is_binary k then unpack_field v deeper else deeper)
          (bytes_to_hex_fields fs depth)
