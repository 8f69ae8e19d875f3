-- ===== src/Websocket/Frame/Bits.antt =====
-- What the masks of a frame's first two bytes do; each is a table, checked by evaluation.
use n6bagent.Prelude.{
  ℕ, zero, suc, ◌<◌, ◌≡◌, refl, Bool, true, false, not, ◌&&◌, ◌==◌, ==_iff, arith, bit_and, bit_or,
  bit_xor, none,
}
use n6bagent.Websocket.Frame.{FrameHeader, first_byte, bit_at}

unfoldable pub every : ℕ → (ℕ → Bool) → Bool
every zero p = true
every (suc n) p = p n && every n p

pub every_below : (n : ℕ) (p : ℕ → Bool) (i : ℕ) → every n p ≡ true → i < n → p i ≡ true
unfolding every
every_below zero p i h lt = absurd (omega arith)
every_below (suc n) p i h lt = ground (arith, every_below n p i)

same : Bool → Bool → Bool
same true b = b
same false b = not b

same_eq : (a b : Bool) → same a b ≡ true → a ≡ b
unfolding same
same_eq true b h = ground arith
same_eq false b h = ground arith

-- The first byte of a frame with these bits.
abbrev byte_of : Bool → Bool → Bool → Bool → ℕ → ℕ
byte_of f r s t op = first_byte (record {
  fin = f;
  rsv1 = r;
  rsv2 = s;
  rsv3 = t;
  op_code = op;
  length_field = 0;
  masking_key = none;
})

reads_back : Bool → Bool → Bool → Bool → ℕ → Bool
unfolding first_byte
reads_back f r s t op =
    let b = byte_of f r s t op in
    same (bit_at b 7) f
    && same (bit_at b 6) r
    && same (bit_at b 5) s
    && same (bit_at b 4) t
    && bit_and b 0x0f == op

table : (f r s t : Bool) → every 16 (reads_back f r s t) ≡ true
unfolding every reads_back same
table true true true true = refl
table true true true false = refl
table true true false true = refl
table true true false false = refl
table true false true true = refl
table true false true false = refl
table true false false true = refl
table true false false false = refl
table false true true true = refl
table false true true false = refl
table false true false true = refl
table false true false false = refl
table false false true true = refl
table false false true false = refl
table false false false true = refl
table false false false false = refl

all_five :
    (a b c d e : Bool)
    → (a && b && c && d && e) ≡ true
    → (a ≡ true) × (b ≡ true) × (c ≡ true) × (d ≡ true) × (e ≡ true)
all_five a b c d e h = ground arith

-- The bits and the type are read back from the first byte.
pub first_byte_fields :
    (h : FrameHeader)
    → h.op_code < 16
    → (bit_at (first_byte h) 7 ≡ h.fin)
      × (bit_at (first_byte h) 6 ≡ h.rsv1)
      × (bit_at (first_byte h) 5 ≡ h.rsv2)
      × (bit_at (first_byte h) 4 ≡ h.rsv3)
      × (bit_and (first_byte h) 0x0f ≡ h.op_code)
unfolding first_byte reads_back
first_byte_fields h lt =
    let (a, b, c, d, e) =
      all_five _ _ _ _ _ (every_below 16 _ h.op_code (table h.fin h.rsv1 h.rsv2 h.rsv3) lt) in
    (same_eq _ _ a, same_eq _ _ b, same_eq _ _ c, same_eq _ _ d, (==_iff _ _).0 e)

pub low_seven : (n : ℕ) → n < 128 → bit_and (bit_or 0 n) 0x7f ≡ n
unfolding every
low_seven n lt = (==_iff _ n).0 (every_below 128 (λ n. bit_and (bit_or 0 n) 0x7f == n) n refl lt)

pub low_seven_masked : (n : ℕ) → n < 128 → bit_and (bit_or 0x80 n) 0x7f ≡ n
unfolding every
low_seven_masked n lt =
    (==_iff _ n).0 (every_below 128 (λ n. bit_and (bit_or 0x80 n) 0x7f == n) n refl lt)

pub no_mask : (n : ℕ) → n < 128 → bit_and (bit_or 0 n) 0x80 ≡ 0
unfolding every
no_mask n lt = (==_iff _ 0).0 (every_below 128 (λ n. bit_and (bit_or 0 n) 0x80 == 0) n refl lt)

pub a_mask : (n : ℕ) → n < 128 → bit_and (bit_or 0x80 n) 0x80 ≡ 0x80
unfolding every
a_mask n lt =
    (==_iff _ 0x80).0 (every_below 128 (λ n. bit_and (bit_or 0x80 n) 0x80 == 0x80) n refl lt)

xor_row : ℕ → Bool
unfolding every
xor_row k = every 256 (λ b. bit_xor (bit_xor b k) k == b)

xor_table : every 256 xor_row ≡ true
unfolding every xor_row
xor_table = refl

-- A byte that is masked twice with the same byte is itself.
pub xor_twice : (b k : ℕ) → b < 256 → k < 256 → bit_xor (bit_xor b k) k ≡ b
unfolding xor_row
xor_twice b k hb hk = (==_iff _ b).0 (
    every_below 256 (λ b. bit_xor (bit_xor b k) k == b) b (every_below 256 xor_row k xor_table hk)
      hb)
