-- ===== src/Yamux/Header/RoundTrip.antt =====
-- What is read from a header that `encode` wrote, and what `encode` writes for one that was read.
use n6bagent.Prelude.{ℕ, ◌^◌, ◌<◌, ◌≡◌, length, All, arith}
use n6bagent.Yamux.Const.{header_size}
use n6bagent.Yamux.Header.{encode, version, msg_type, flags, stream_id, payload_length}

-- The fields of a frame header fit their widths.
pub record Fits (ty fl id len : ℕ) : Type 0 where
  pub type_fits : ty < 2 ^ 8
  pub flags_fit : fl < 2 ^ 16
  pub id_fits : id < 2 ^ 32
  pub length_fits : len < 2 ^ 32

-- The five fields read back from an encoded header are the ones that were written, when each
-- fits its width.
pub fields-encode :
    (ty fl id len : ℕ)
    → Fits ty fl id len
    → let h = encode ty fl id len in
      (version h ≡ 0)
      × (msg_type h ≡ ty)
      × (flags h ≡ fl)
      × (stream_id h ≡ id)
      × (payload_length h ≡ len)
unfolding encode version msg_type flags stream_id payload_length
fields-encode ty fl id len f = omega arith

-- An encoded header is `header_size` bytes long, and each is a byte, if the type fits a byte.
pub encode-IsByte :
    (ty fl id len : ℕ)
    → ty < 2 ^ 8
    → (length (encode ty fl id len) ≡ header_size) × All (λ b. b < 2 ^ 8) (encode ty fl id len)
unfolding encode
encode-IsByte ty fl id len h = omega arith
