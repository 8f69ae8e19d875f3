-- ===== src/Websocket/Conn/Octets.antt =====
-- That what is written on a connection is bytes, each below 256.
use n6bagent.Prelude.{
  ℕ, zero, suc, ◌+◌, ◌%◌, ◌<◌, ◌≡◌, refl, Bool, true, Option, none, some, [], ◌∷◌, ◌++◌, length,
  get_or, take, All, arith, ltb, bit_or, bit_xor, ◌==◌, inl, inr, Bool-cases, if_true, if_false,
  subst, sym,
}
use n6bagent.Websocket.Frame.{
  Bytes, first_byte, second_byte, length_bytes, length_fields, masked, Encoded, encoded, refused,
  encode_frame, under_key,
}
use n6bagent.Websocket.Base.{Error}
use n6bagent.Websocket.Conn.{
  Conn, Out, Random, random_key, no_key, Count, flushed, data_header, put_frame, with_random,
  write_frame,
}
use n6bagent.Websocket.Frame.Bits.{every, every_below}
use n6bagent.Websocket.Frame.Masking.{IsByte, get_or-IsByte}

below : (n m : ℕ) → ltb n m ≡ true → n < m
below n m h = ground arith

or_row : ℕ → Bool
unfolding every
or_row k = every 128 (λ n. ltb (bit_or k n) 256)

or_fits : (k n : ℕ) → or_row k ≡ true → n < 128 → bit_or k n < 256
unfolding or_row
or_fits k n row lt = below _ 256 (every_below 128 (λ n. ltb (bit_or k n) 256) n row lt)

xor_fits_row : ℕ → Bool
unfolding every
xor_fits_row k = every 256 (λ b. ltb (bit_xor b k) 256)

xor_fits_table : every 256 xor_fits_row ≡ true
unfolding every xor_fits_row
xor_fits_table = refl

xor-IsByte : (b k : ℕ) → b < 256 → k < 256 → bit_xor b k < 256
unfolding xor_fits_row
xor-IsByte b k hb hk = below _ 256 (
    every_below 256 (λ b. ltb (bit_xor b k) 256) b
      (every_below 256 xor_fits_row k xor_fits_table hk) hb)

masked-IsByte :
    (key : Bytes) (pos : ℕ) (bs : Bytes)
    → All IsByte key
    → All IsByte bs
    → All IsByte (masked key pos bs)
unfolding masked
masked-IsByte key pos [] ks all = tt
masked-IsByte key pos (b ∷ bs) ks all = (
  xor-IsByte b (get_or key (pos % 4) 0) all.0 (get_or-IsByte key (pos % 4) ks),
  masked-IsByte key (pos + 1) bs ks all.1,
)

append-IsByte : (xs ys : Bytes) → All IsByte xs → All IsByte ys → All IsByte (xs ++ ys)
append-IsByte [] ys hx hy = hy
append-IsByte (x ∷ xs) ys hx hy = (hx.0, append-IsByte xs ys hx.1 hy)

take-IsByte : (n : ℕ) (xs : Bytes) → All IsByte xs → All IsByte (take n xs)
take-IsByte zero xs all = tt
take-IsByte (suc n) [] all = tt
take-IsByte (suc n) (x ∷ xs) all = (all.0, take-IsByte n xs all.1)

length_bytes-IsByte : (k n : ℕ) → All IsByte (length_bytes k n)
unfolding length_bytes
length_bytes-IsByte zero n = tt
length_bytes-IsByte (suc k) n = (omega arith, length_bytes-IsByte k n)

second_byte-IsByte : (key : Option Bytes) (n : ℕ) → second_byte key n < 256
unfolding second_byte or_row every
second_byte-IsByte none n = or_fits 0 _ refl (ground arith)
second_byte-IsByte (some key) n = or_fits 128 _ refl (ground arith)

-- The bytes of a frame that is written, if it is.
abbrev HasBytes : Encoded → Type 0
HasBytes (encoded bs) = All IsByte bs
HasBytes (refused e) = Unit {0}

abbrev KeyFits : Option Bytes → Type 0
KeyFits none = Unit {0}
KeyFits (some key) = All IsByte key

under_key-HasBytes :
    (key : Option Bytes) (header msg : Bytes)
    → KeyFits key
    → All IsByte header
    → All IsByte msg
    → HasBytes (under_key key header msg)
under_key-HasBytes none header msg k h m = append-IsByte header msg h m
under_key-HasBytes (some key) header msg k h m = elim (Bool-cases (length key == 4)) [
  | inl four ↦ subst HasBytes (sym (if_true _ _ four)) (
      append-IsByte header (key ++ masked key 0 msg) h
        (append-IsByte key (masked key 0 msg) k (masked-IsByte key 0 msg k m)))
  | inr other ↦ subst HasBytes (sym (if_false _ _ other)) tt
]

encode_frame-HasBytes :
    (op : ℕ) (key : Option Bytes) (msg : Bytes)
    → op < 16
    → KeyFits key
    → All IsByte msg
    → HasBytes (encode_frame (data_header op key) msg)
unfolding encode_frame first_byte or_row every
encode_frame-HasBytes op key msg small k m =
    let n = length msg in
    under_key-HasBytes key
      (first_byte (data_header op key) ∷ second_byte key n ∷ length_bytes (length_fields n) n) msg k
      (
        or_fits 128 op refl (omega arith),
        (second_byte-IsByte key n, length_bytes-IsByte (length_fields n) n),
      )
      m

put_frame-IsByte :
    (x : Encoded) (n : ℕ) (out : Out) (c : Conn)
    → HasBytes x
    → All IsByte c.output
    → All IsByte (put_frame x n out c).0.output
put_frame-IsByte (refused e) n out c h all = all
put_frame-IsByte (encoded bs) n out c h all =
    append-IsByte c.output (flushed bs out.flush) all (fits out.flush)
  where
    fits : (f : Option (ℕ × Error)) → All IsByte (flushed bs f)
    fits none = h
    fits (some (k, e)) = take-IsByte k bs h

-- The key that the random numbers give, if they give one, is made of bytes.
abbrev pub RandomFits : Random → Type 0
RandomFits (random_key k) = All IsByte k
RandomFits (no_key e) = Unit {0}

with_random-IsByte :
    (r : Random) (op : ℕ) (msg : Bytes) (out : Out) (c : Conn)
    → op < 16
    → RandomFits r
    → All IsByte msg
    → All IsByte c.output
    → All IsByte (with_random r op msg out c).0.output
with_random-IsByte (no_key e) op msg out c small k m all = all
with_random-IsByte (random_key key) op msg out c small k m all =
    put_frame-IsByte (encode_frame (data_header op (some key)) msg) (length msg) out c
      (encode_frame-HasBytes op (some key) msg small k m) all

pub write_frame-IsByte :
    (op : ℕ) (msg : Bytes) (out : Out) (c : Conn)
    → op < 16
    → RandomFits out.random
    → All IsByte msg
    → All IsByte c.output
    → All IsByte (write_frame op msg out c).0.output
unfolding write_frame
write_frame-IsByte op msg out c small k m all = elim (Bool-cases c.is_server) [
  | inl server ↦
      subst (λ (x : Conn × Count). All IsByte x.0.output) (sym (if_true _ _ server))
        (put_frame-IsByte (encode_frame (data_header op none) msg) (length msg) out c
          (encode_frame-HasBytes op none msg small tt m) all)
  | inr client ↦
      subst (λ (x : Conn × Count). All IsByte x.0.output) (sym (if_false _ _ client))
        (with_random-IsByte out.random op msg out c small k m all)
]
