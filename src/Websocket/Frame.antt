-- ===== src/Websocket/Frame.antt =====
-- hybi.go: the header of a frame, written and read, and its payload under the mask.
pub mod Bits
pub mod Header
pub mod Masking
use n6bagent.Prelude.{
  ℕ, zero, suc, ◌+◌, ◌-◌, ◌*◌, ◌/◌, ◌%◌, ◌^◌, Bool, true, false, not, Option, none, some, List, [],
  ◌∷◌, ◌++◌, length, get_or, ltb, leb, ◌==◌, if◌then◌else◌, bit_and, bit_or, bit_xor,
}
use n6bagent.Websocket.Base.{Error, bad_masking_key}

abbrev pub Bytes : Type 0
Bytes = List ℕ

-- hybiFrameHeader. The length is the pattern of an int64; `data` is in `Frame`.
pub record FrameHeader : Type 0 where
  pub fin : Bool
  pub rsv1 : Bool
  pub rsv2 : Bool
  pub rsv3 : Bool
  pub op_code : ℕ
  pub length_field : ℕ
  pub masking_key : Option Bytes

-- The first byte that Write sends.
unfoldable pub first_byte : FrameHeader → ℕ
first_byte h =
    let b = if h.fin then bit_or 0 0x80 else 0 in
    let b = if h.rsv1 then bit_or b (2 ^ 6) else b in
    let b = if h.rsv2 then bit_or b (2 ^ 5) else b in
    let b = if h.rsv3 then bit_or b (2 ^ 4) else b in bit_or b h.op_code

abbrev pub mask_bit : Option Bytes → ℕ
mask_bit none = 0
mask_bit (some key) = 0x80

-- The second byte, with the mask and the short length or the mark of a longer one.
unfoldable pub second_byte : Option Bytes → ℕ → ℕ
second_byte key n =
    bit_or (mask_bit key) (if leb n 125 then n else if ltb n 65536 then 126 else 127)

unfoldable pub length_fields : ℕ → ℕ
length_fields n = if leb n 125 then 0 else if ltb n 65536 then 2 else 8

-- The bytes of the longer length, the highest first; the mask `0xff` and the conversion to a byte
-- both keep the lowest eight bits.
unfoldable pub length_bytes : ℕ → ℕ → Bytes
length_bytes zero n = []
length_bytes (suc k) n = n / 2 ^ (k * 8) % 2 ^ 8 ∷ length_bytes k n

-- `data[i] = msg[i] ^ key[i%4]` from a position on.
unfoldable pub masked : Bytes → ℕ → Bytes → Bytes
masked key pos [] = []
masked key pos (b ∷ bs) = bit_xor b (get_or key (pos % 4) 0) ∷ masked key (pos + 1) bs

-- The bytes that Write hands to the buffered writer, or its error.
pub data Encoded : Type 0 where
  encoded : Bytes → Encoded
  refused : Error → Encoded

abbrev pub under_key : Option Bytes → Bytes → Bytes → Encoded
under_key none header msg = encoded (header ++ msg)
under_key (some key) header msg =
    if length key == 4
    then encoded (header ++ (key ++ masked key 0 msg))
    else refused bad_masking_key

unfoldable pub encode_frame : FrameHeader → Bytes → Encoded
unfolding first_byte second_byte length_fields length_bytes masked
encode_frame h msg =
    let n = length msg in
    under_key h.masking_key
      (first_byte h ∷ second_byte h.masking_key n ∷ length_bytes (length_fields n) n) msg

-- A reader of the connection: a result and the bytes that are left, or the error at the end.
pub data Read {ℓ} (A : Type ℓ) : Type ℓ where
  got : A → Bytes → Read A
  failed : Error → Read A

abbrev pub Reader {ℓ} : Type ℓ → Type ℓ
Reader A = Bytes → Error → Read A

infixl 5 ◌>>=◌
abbrev pub ◌>>=◌ {ℓ κ} : {A : Type ℓ} {B : Type κ} → Reader A → (A → Reader B) → Reader B
◌>>=◌ m f bs e = elim (m bs e) [ got a rest ↦ f a rest e | failed x ↦ failed x ]

abbrev pub pure {ℓ} : {A : Type ℓ} → A → Reader A
pure a bs e = got a bs

abbrev pub read_byte : Reader ℕ
read_byte [] e = failed e
read_byte (b ∷ bs) e = got b bs

-- The loop over the length's bytes; `* 256 +` on an int64 wraps.
unfoldable pub read_length : ℕ → ℕ → Reader ℕ
read_length zero acc = pure acc
read_length (suc k) acc = read_byte >>= λ b. read_length k ((acc * 256 + b) % 2 ^ 64)

unfoldable pub read_payload_length : ℕ → Reader ℕ
read_payload_length b =
    if leb b 125 then pure b else if b == 126 then read_length 2 0 else read_length 8 0

abbrev pub read_four : Reader Bytes
read_four = read_byte >>= λ a.
    read_byte >>= λ b. read_byte >>= λ c. read_byte >>= λ d. pure (a ∷ b ∷ c ∷ d ∷ [])

unfoldable pub read_key : Bool → Reader (Option Bytes)
read_key false = pure none
read_key true = read_four >>= λ key. pure (some key)

-- `((b >> j) & 1) != 0`
abbrev pub bit_at : ℕ → ℕ → Bool
bit_at b j = not (bit_and (b / 2 ^ j) 1 == 0)

-- NewFrameReader, up to the reader of the payload.
unfoldable pub read_header : Reader FrameHeader
read_header = read_byte >>= λ b0. read_byte >>= λ b1. read_payload_length (bit_and b1 0x7f) >>= λ n.
    read_key (not (bit_and b1 0x80 == 0)) >>= λ key. pure (record {
      fin = bit_at b0 7;
      rsv1 = bit_at b0 6;
      rsv2 = bit_at b0 5;
      rsv3 = bit_at b0 4;
      op_code = bit_and b0 0x0f;
      length_field = n;
      masking_key = key;
    })
