-- ===== src/Yamux/Header.antt =====
-- const.go, `type header []byte`: the twelve bytes before each frame, in network order.
pub mod RoundTrip
use n6bagent.Prelude.{ℕ, ◌+◌, ◌*◌, ◌/◌, ◌%◌, ◌^◌, ◌<◌, List, [], ◌∷◌, ◌++◌, get_or}
use n6bagent.Yamux.Const.{proto_version}

-- A byte slice as a list of numbers below 256. Every header is made with `header_size` bytes, so
-- the 0 that stands for a missing byte is not met.
abbrev pub Bytes : Type 0
Bytes = List ℕ

abbrev byte_at : Bytes → ℕ → ℕ
byte_at h i = get_or h i 0

-- binary.BigEndian.Uint16(h[i:i+2]) and binary.BigEndian.Uint32(h[i:i+4])
abbrev uint16_at : Bytes → ℕ → ℕ
uint16_at h i = byte_at h i * 2 ^ 8 + byte_at h (i + 1)

abbrev uint32_at : Bytes → ℕ → ℕ
uint32_at h i =
    byte_at h i * 2 ^ 24
    + byte_at h (i + 1) * 2 ^ 16
    + byte_at h (i + 2) * 2 ^ 8
    + byte_at h (i + 3)

-- binary.BigEndian.PutUint16 and binary.BigEndian.PutUint32
abbrev pub put_uint16 : ℕ → Bytes
put_uint16 v = v / 2 ^ 8 % 2 ^ 8 ∷ v % 2 ^ 8 ∷ []

abbrev pub put_uint32 : ℕ → Bytes
put_uint32 v = v / 2 ^ 24 % 2 ^ 8 ∷ v / 2 ^ 16 % 2 ^ 8 ∷ v / 2 ^ 8 % 2 ^ 8 ∷ v % 2 ^ 8 ∷ []

unfoldable pub version : Bytes → ℕ
version h = byte_at h 0

unfoldable pub msg_type : Bytes → ℕ
msg_type h = byte_at h 1

unfoldable pub flags : Bytes → ℕ
flags h = uint16_at h 2

unfoldable pub stream_id : Bytes → ℕ
stream_id h = uint32_at h 4

unfoldable pub payload_length : Bytes → ℕ
payload_length h = uint32_at h 8

-- `encode` overwrites all twelve bytes of the header that it is called on.
unfoldable pub encode : ℕ → ℕ → ℕ → ℕ → Bytes
encode ty fl id len = proto_version ∷ ty ∷ put_uint16 fl ++ put_uint32 id ++ put_uint32 len
