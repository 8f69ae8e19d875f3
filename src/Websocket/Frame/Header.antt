-- ===== src/Websocket/Frame/Header.antt =====
-- The header that is read from the bytes of a frame is the one that was written.
use n6bagent.Prelude.{
  ℕ, ◌^◌, ◌<◌, ◌≡◌, refl, ap, Bool, true, false, not, Option, none, some, [], ◌∷◌, ◌++◌,
  append_assoc, length, leb, ltb, ◌==◌, if◌then◌else◌, arith, bit_and, Bool-cases, inl, inr,
}
use n6bagent.Websocket.Base.{Error}
use n6bagent.Websocket.Frame.{
  Bytes, FrameHeader, first_byte, second_byte, length_fields, length_bytes, masked, encode_frame,
  encoded, got, ◌>>=◌, read_length, read_header, read_payload_length, read_key, under_key,
}
use n6bagent.Websocket.Frame.Bits.{first_byte_fields, low_seven, low_seven_masked, no_mask, a_mask}

read_two :
    (n : ℕ) (rest : Bytes) (e : Error)
    → n < 65536
    → read_length 2 0 (length_bytes 2 n ++ rest) e ≡ got n rest
unfolding read_length length_bytes
read_two n rest e lt = ap (λ (m : ℕ). got m rest) (omega arith)

read_eight :
    (n : ℕ) (rest : Bytes) (e : Error)
    → n < 2 ^ 64
    → read_length 8 0 (length_bytes 8 n ++ rest) e ≡ got n rest
unfolding read_length length_bytes
read_eight n rest e lt = ap (λ (m : ℕ). got m rest) (omega arith)

abbrev marker : ℕ → ℕ
marker n = if leb n 125 then n else if ltb n 65536 then 126 else 127

marker_lt : (n : ℕ) → marker n < 128
marker_lt n = ground arith

abbrev is_some : Option Bytes → Bool
is_some none = false
is_some (some key) = true

second_byte_fields :
    (key : Option Bytes) (n : ℕ)
    → (bit_and (second_byte key n) 0x7f ≡ marker n)
      × (not (bit_and (second_byte key n) 0x80 == 0) ≡ is_some key)
unfolding second_byte
second_byte_fields none n =
    (low_seven (marker n) (marker_lt n), rw (no_mask (marker n) (marker_lt n)))
second_byte_fields (some key) n =
    (low_seven_masked (marker n) (marker_lt n), rw (a_mask (marker n) (marker_lt n)))

read_payload_length_lem :
    (n : ℕ) (rest : Bytes) (e : Error)
    → n < 2 ^ 64
    → read_payload_length (marker n) (length_bytes (length_fields n) n ++ rest) e ≡ got n rest
unfolding read_payload_length length_fields length_bytes
read_payload_length_lem n rest e lt = elim (Bool-cases (leb n 125)) [
  | inl short ↦ rw (short, short)
  | inr long ↦ elim (Bool-cases (ltb n 65536)) [
    | inl two ↦ rw (long, two) (read_two n rest e (ground arith))
    | inr eight ↦ rw (long, eight) (read_eight n rest e lt)
  ]
]

-- A mask is absent, or has four bytes.
abbrev pub IsKey : Option Bytes → Type 0
IsKey none = Unit {0}
IsKey (some key) = length key ≡ 4

-- What stands behind the header's length: the key and the payload under it.
abbrev pub key_bytes : Option Bytes → Bytes
key_bytes none = []
key_bytes (some key) = key

abbrev pub payload : Option Bytes → Bytes → Bytes
payload none msg = msg
payload (some key) msg = masked key 0 msg

read_key_lem :
    (key : Option Bytes) (rest : Bytes) (e : Error)
    → IsKey key
    → read_key (is_some key) (key_bytes key ++ rest) e ≡ got key rest
unfolding read_key
read_key_lem none rest e h = refl
read_key_lem (some (a ∷ b ∷ c ∷ d ∷ [])) rest e h = refl
read_key_lem (some []) rest e h = absurd (omega arith)
read_key_lem (some (a ∷ [])) rest e h = absurd (omega arith)
read_key_lem (some (a ∷ b ∷ [])) rest e h = absurd (omega arith)
read_key_lem (some (a ∷ b ∷ c ∷ [])) rest e h = absurd (omega arith)
read_key_lem (some (a ∷ b ∷ c ∷ d ∷ x ∷ key)) rest e h = absurd (omega arith)

-- The bytes of a frame: its header, the key if there is one, and the payload.
abbrev pub wire : FrameHeader → Bytes → Bytes
wire h msg =
    let n = length msg in
    first_byte h
    ∷ second_byte h.masking_key n
    ∷ (length_bytes (length_fields n) n ++ (key_bytes h.masking_key ++ payload h.masking_key msg))

-- With no key, or one of four bytes, a frame is its header, its key and its payload.
pub encode_frame-wire :
    (h : FrameHeader) (msg : Bytes)
    → IsKey h.masking_key
    → encode_frame h msg ≡ encoded (wire h msg)
unfolding encode_frame
encode_frame-wire h msg k = go h.masking_key k
  where
    go :
        (key : Option Bytes)
        → IsKey key
        → under_key key
            (first_byte h
              ∷ second_byte key (length msg)
              ∷ length_bytes (length_fields (length msg)) (length msg))
            msg
          ≡ encoded (
              first_byte h
              ∷ second_byte key (length msg)
              ∷ (length_bytes (length_fields (length msg)) (length msg)
                  ++ (key_bytes key ++ payload key msg)))
    go none k = refl
    go (some key) k = ground (arith, k)

-- The header that is read from the bytes of a frame, whatever follows them, is the one that was
-- written, with the length of the payload, and the reader is left before the payload. The type has
-- four bits, the payload is below 2 ^ 63 bytes, and a key has four bytes.
pub read_header-wire :
    (h : FrameHeader) (msg rest : Bytes) (e : Error)
    → h.op_code < 16
    → length msg < 2 ^ 63
    → IsKey h.masking_key
    → read_header (wire h msg ++ rest) e
      ≡ got (record h { length_field = length msg }) (payload h.masking_key msg ++ rest)
unfolding read_header
read_header-wire h msg rest e op fits k =
    let (f, r, s, t, o) = first_byte_fields h op in
    let (low, high) = second_byte_fields h.masking_key (length msg) in
    let body : Bytes = payload h.masking_key msg ++ rest in
    let n = length msg in
    rw
      (
        append_assoc (length_bytes (length_fields n) n)
            (key_bytes h.masking_key ++ payload h.masking_key msg) rest,
        append_assoc (key_bytes h.masking_key) (payload h.masking_key msg) rest,
      )
      (rw (low, read_payload_length_lem n (key_bytes h.masking_key ++ body) e (omega arith), ◌>>=◌)
        (rw (high, read_key_lem h.masking_key body e k, ◌>>=◌) (rw (f, r, s, t, o))))
