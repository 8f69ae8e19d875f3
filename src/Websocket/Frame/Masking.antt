-- ===== src/Websocket/Frame/Masking.antt =====
-- The mask is undone by the same mask, in one piece or in several.
use n6bagent.Prelude.{
  ℕ, zero, suc, ◌+◌, ◌%◌, ◌<◌, ◌≡◌, refl, ap, ap₂, ◌∙◌, [], ◌∷◌, ◌++◌, length, get_or, All, arith,
  bit_xor,
}
use n6bagent.Websocket.Frame.{Bytes, masked}
use n6bagent.Websocket.Frame.Bits.{xor_twice}

abbrev pub IsByte : ℕ → Type 0
IsByte b = b < 256

pub length-masked : (key : Bytes) (pos : ℕ) (bs : Bytes) → length (masked key pos bs) ≡ length bs
unfolding masked
length-masked key pos [] = refl
length-masked key pos (b ∷ bs) = ap suc (length-masked key (pos + 1) bs)

pub get_or-IsByte : (bs : Bytes) (i : ℕ) → All IsByte bs → get_or bs i 0 < 256
get_or-IsByte [] i all = omega arith
get_or-IsByte (b ∷ bs) zero all = all.0
get_or-IsByte (b ∷ bs) (suc i) all = get_or-IsByte bs i all.1

-- Bytes that are masked twice from one position with a key of bytes are themselves.
pub masked-masked :
    (key : Bytes) (pos : ℕ) (bs : Bytes)
    → All IsByte key
    → All IsByte bs
    → masked key pos (masked key pos bs) ≡ bs
unfolding masked
masked-masked key pos [] ks all = refl
masked-masked key pos (b ∷ bs) ks all =
    ap₂ (λ (x : ℕ) (xs : Bytes). x ∷ xs)
      (xor_twice b (get_or key (pos % 4) 0) all.0 (get_or-IsByte key (pos % 4) ks))
      (masked-masked key (pos + 1) bs ks all.1)

-- A mask of two pieces is that of the whole, if the second goes on where the first ended.
pub masked-append :
    (key : Bytes) (pos : ℕ) (xs ys : Bytes)
    → masked key pos (xs ++ ys) ≡ masked key pos xs ++ masked key (pos + length xs) ys
unfolding masked
masked-append key pos [] ys = ap (λ (p : ℕ). masked key p ys) (omega arith)
masked-append key pos (x ∷ xs) ys =
    ap (λ (zs : Bytes). bit_xor x (get_or key (pos % 4) 0) ∷ zs)
      (masked-append key (pos + 1) xs ys
        ∙ ap (λ (p : ℕ). masked key (pos + 1) xs ++ masked key p ys) (omega arith))
