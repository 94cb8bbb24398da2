-- ===== src/Codec/Framing.antt =====
-- network/codec.py and network/p2p.py: what `encode` writes, `_read_message` reads.
use mathlib.Core.List.{append_assoc}
use qbit_network.Common.{
  ℕ, ◌<◌, ◌≤◌, ◌^◌, true, false, List, [], ◌∷◌, ◌++◌, some, ◌≡◌, ◌≢◌, refl, arith, ltb, length,
  take, drop, All, length-append, ◌==◌, Bool-cases, inl, inr, sym,
}
use qbit_network.Common.Exec.{Result, ok, err}
use qbit_network.Codec.{Item, text, dict, Fields, is_binary, hex_to_bytes}
use qbit_network.Staking.{member}
use qbit_network.Codec.RoundTrip.{FieldsSendable, IsSendable, unpack-pack}
use qbit_network.Codec.Wire.{
  Backend, WireFormat, json, msgpack, frame_too_large, message, max_frame_size, pack_u32, frame,
  encode, init, get_field, read_fields, decode, got, from_bytes, read_exactly, read_line,
  split_line, line_size, reader_limit, read_frame, read_message, read_payload, read_text,
  read_object,
}

take-append {ℓ} : {A : Type ℓ} (xs ys : List A) → take (length xs) (xs ++ ys) ≡ xs
take-append [] ys = refl
take-append (x ∷ xs) ys = cc (take-append xs ys)

drop-append {ℓ} : {A : Type ℓ} (xs ys : List A) → drop (length xs) (xs ++ ys) ≡ ys
drop-append [] ys = refl
drop-append (x ∷ xs) ys = drop-append xs ys

read_exactly-append : (xs ys : List ℕ) → read_exactly (length xs) (xs ++ ys) ≡ some (xs, ys)
unfolding read_exactly
read_exactly-append xs ys =
    let enough : ltb (length (xs ++ ys)) (length xs) ≡ false =
      ground (arith, length-append xs ys) in
    rw (enough, take-append xs ys, drop-append xs ys) refl

ok_inj : {E A : Type 0} (a b : A) → ◌≡◌ {A = Result E A} (ok a) (ok b) → a ≡ b
ok_inj a b h = cc

ok-ne-err : {E A : Type 0} (a : A) (e : E) → ◌≡◌ {A = Result E A} (ok a) (err e) → ⊥
ok-ne-err a e h = cc

from_bytes-pack_u32 : (n : ℕ) → n < 2 ^ 32 → from_bytes (pack_u32 n) ≡ n
unfolding from_bytes pack_u32
from_bytes-pack_u32 n h = omega arith

length-pack_u32 : (n : ℕ) → length (pack_u32 n) ≡ 4
unfolding pack_u32
length-pack_u32 n = refl

read_header : (n : ℕ) (s : List ℕ) → read_exactly 4 (pack_u32 n ++ s) ≡ some (pack_u32 n, s)
read_header n s = rw (← length-pack_u32 n) (read_exactly-append (pack_u32 n) s)

framed_by :
    (payload framed : List ℕ)
    → frame payload ≡ ok framed
    → (ltb max_frame_size (length payload) ≡ false)
      × (framed ≡ pack_u32 (length payload) ++ payload)
unfolding frame
framed_by payload framed h = elim (Bool-cases (ltb max_frame_size (length payload))) [
  | inl large ↦ absurd (ok-ne-err framed frame_too_large (sym (rw large at h)))
  | inr fits ↦ (fits, ok_inj _ _ (sym (rw fits at h)))
]

-- A framed payload comes back as the payload.
read_frame-frame :
    (b : Backend) (payload framed rest : List ℕ)
    → 0 < length payload
    → frame payload ≡ ok framed
    → read_frame b (read_exactly 4 (framed ++ rest)) ≡ read_payload b (some (payload, rest))
unfolding read_frame
read_frame-frame b payload framed rest pos h =
    let (fits, shape) = framed_by payload framed h in
    let n = length payload in
    let some_bytes : (n == 0) ≡ false = ground arith in
    rw
      (
        shape,
        append_assoc (pack_u32 n) payload rest,
        read_header n (payload ++ rest),
        from_bytes-pack_u32 n (ground arith),
        some_bytes,
        fits,
        read_exactly-append payload rest,
      )
      refl

split_line-append :
    (l s : List ℕ) → All (λ c. c ≢ 10) l → split_line (l ++ 10 ∷ s) ≡ (l ++ 10 ∷ [], s)
unfolding split_line
split_line-append [] s h = refl
split_line-append (c ∷ l) s h = ground (arith, split_line-append l s h.1)

line_size-append : (l s : List ℕ) → All (λ c. c ≢ 10) l → line_size (l ++ 10 ∷ s) ≡ length l
unfolding line_size
line_size-append [] s h = refl
line_size-append (c ∷ l) s h = ground (arith, line_size-append l s h.1)

read_line-append :
    (l s : List ℕ)
    → All (λ c. c ≢ 10) l
    → length l ≤ reader_limit
    → read_line (l ++ 10 ∷ s) ≡ some (l ++ 10 ∷ [], s)
unfolding read_line
read_line-append l s h short =
    let fits : ltb reader_limit (length l) ≡ false = ground arith in
    rw (line_size-append l s h, fits, split_line-append l s h) refl

-- What the backend of a format must carry of a message. msgpack, which must be there, packs it to
-- some bytes and restores it from them; json writes a line without a newline inside, which is
-- within the limit of the reader, and restores it from this line.
abbrev pub Carries : Backend → WireFormat → Item → Type 0
Carries b msgpack msg =
    (b.has_msgpack ≡ true)
    × ((payload : List ℕ) × (b.packb (hex_to_bytes msg 0) ≡ some payload)
        × (b.unpackb payload ≡ some (hex_to_bytes msg 0))
        × (0 < length payload))
Carries b json msg =
    (line : List ℕ) × (b.dumps msg ≡ some line)
    × (b.parse_line (line ++ 10 ∷ []) ≡ some msg)
    × All (λ c. c ≢ 10) line
    × (length line ≤ reader_limit)

message-IsSendable : (t : List ℕ) (d : Fields) → FieldsSendable d → IsSendable (message t d)
unfolding message is_binary member
message-IsSendable t d h = ((λ e. cc), tt, (tt, h, tt))

read_fields-message : (t : List ℕ) (d : Fields) → read_fields (message t d) ≡ some (text t, dict d)
unfolding read_fields message get_field
read_fields-message t d = refl

read_object-message :
    (t : List ℕ) (d : Fields) → read_object (some (message t d)) ≡ got (text t) (dict d)
unfolding read_fields message get_field
read_object-message t d = refl

read_text-line :
    (b : Backend) (l : List ℕ)
    → read_text b (l ++ 10 ∷ []) ≡ read_object (b.parse_line (l ++ 10 ∷ []))
read_text-line b [] = refl
read_text-line b (c ∷ l) = refl

-- Either format: a message that `encode` puts on a connection comes back from the reader with its
-- type and its data, and nothing of what follows is read, if the texts in its binary fields are the
-- lower-case hex of bytes or no hex at all, and the backend of the format carries the message: for
-- msgpack it is imported, for json the line is at most 10 MB, the limit of the reader.
pub read_message-encode :
    (b : Backend) (format : WireFormat) (t : List ℕ) (d : Fields) (sent rest : List ℕ)
    → FieldsSendable d
    → Carries b format (message t d)
    → encode b format t d ≡ ok sent
    → read_message b format (sent ++ rest) ≡ (got (text t) (dict d), rest)
unfolding encode read_message decode read_payload init
read_message-encode b msgpack t d sent rest h (has, (payload, packed, unpacked, pos)) e =
    rw
      (
        read_frame-frame b payload sent rest pos (rw packed at e),
        has,
        unpacked,
        unpack-pack b.utf8_decode (message t d) 0 (message-IsSendable t d h),
        read_fields-message t d,
      )
      refl
read_message-encode b json t d sent rest h (line, written, parsed, one_line, short) e =
    rw
      (
        ← (ok_inj _ _ (rw written at e)),
        append_assoc line (10 ∷ []) rest,
        read_line-append line rest one_line short,
        read_text-line b line,
        parsed,
        read_object-message t d,
      )
      refl
