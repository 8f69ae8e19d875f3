-- ===== src/Goproxy/Chunked/Decoding.antt =====
-- What the chunked encoding means to its reader.
use n6bagent.Prelude.{
  ℕ, zero, suc, ◌+◌, ◌-◌, ◌*◌, ◌/◌, ◌%◌, ◌<◌, ◌≡◌, ◌≢◌, refl, ◌∙◌, ap, subst, Bool, true, ◌&&◌,
  ◌||◌, Option, none, some, List, [], ◌∷◌, ◌++◌, append_assoc, length, length-append, take, drop,
  take-append, All, ltb, leb, ◌==◌, if◌then◌else◌, arith, Bool-cases, inl, inr,
}
use n6bagent.Goproxy.Http.{Bytes}
use n6bagent.Goproxy.Chunked.{hex_from, hex, digit, crlf, Wire, write_body, write, close}

-- A decoder written from the format alone: a size in hexadecimal digits and a line end, as many
-- bytes and a line end, and so on up to a size of zero.
abbrev pub is_digit : ℕ → Bool
is_digit c = leb 48 c && leb c 57 || leb 97 c && leb c 102

abbrev pub digit_value : ℕ → ℕ
digit_value c = if ltb c 58 then c - 48 else c - 87

unfoldable pub read_size : ℕ → Bytes → Option (ℕ × Bytes)
read_size acc [] = none
read_size acc (c ∷ bs) =
    let more = read_size (acc * 16 + digit_value c) bs in
    if is_digit c
    then more
    else if c == 13
    then elim bs [ [] ↦ none | x ∷ rest ↦ if x == 10 then some (acc, rest) else none ]
    else none

abbrev with_piece : Bytes → Option (Bytes × Bytes) → Option (Bytes × Bytes)
with_piece b none = none
with_piece b (some (bs, rest)) = some (b ++ bs, rest)

-- The bytes of all chunks, and what follows the last chunk, with fuel for the chunks.
unfoldable pub unchunk : ℕ → Bytes → Option (Bytes × Bytes)
unchunk zero bs = none
unchunk (suc fuel) bs = elim (read_size 0 bs) [
  | none ↦ none
  | some (n, rest) ↦
      let more = unchunk fuel (drop (n + 2) rest) in
      if n == 0
      then some ([], rest)
      else if leb (n + 2) (length rest)
      then with_piece (take n rest) more
      else none
]

digit_lem : (d : ℕ) → d < 16 → (is_digit (digit d) ≡ true) × (digit_value (digit d) ≡ d)
digit_lem d lt = (ground arith, ground arith)

read_size-digit :
    (acc d m : ℕ) (bs : Bytes)
    → d < 16
    → acc * 16 + d ≡ m
    → read_size acc (digit d ∷ bs) ≡ read_size m bs
unfolding read_size
read_size-digit acc d m bs lt e =
    let (is, value) = digit_lem d lt in rw (is, value) (ap (λ (a : ℕ). read_size a bs) e)

read_size-hex_from :
    (fuel n : ℕ) (tail rest : Bytes)
    → n < fuel
    → read_size 0 (hex_from fuel n tail ++ rest) ≡ read_size n (tail ++ rest)
unfolding hex_from
read_size-hex_from zero n tail rest lt = absurd (omega arith)
read_size-hex_from (suc fuel) n tail rest lt = elim (Bool-cases (ltb n 16)) [
  | inl small ↦ rw small (read_size-digit 0 n n (tail ++ rest) (ground arith) (omega arith))
  | inr large ↦ rw large (
      read_size-hex_from fuel (n / 16) (digit (n % 16) ∷ tail) rest (ground arith)
      ∙ read_size-digit (n / 16) (n % 16) n (tail ++ rest) (omega arith) (omega arith))
]

-- The size that is read back, whatever follows its line.
read_size-hex : (n : ℕ) (rest : Bytes) → read_size 0 (hex n ++ (crlf ++ rest)) ≡ some (n, rest)
unfolding hex read_size
read_size-hex n rest = read_size-hex_from (suc n) n [] (crlf ++ rest) (omega arith)

-- A Write whose writes work.
abbrev pub works : ℕ → Wire
works n = record { head_failure = none; taken = n; body_failure = none; end_failure = none }

abbrev pub chunk : Bytes → Bytes
chunk b = (write b (works (length b))).0

abbrev pub chunks : List Bytes → Bytes
chunks [] = close
chunks (b ∷ bs) = chunk b ++ chunks bs

abbrev pub joined : List Bytes → Bytes
joined [] = []
joined (b ∷ bs) = b ++ joined bs

chunk-append :
    (x : ℕ) (b more : Bytes)
    → chunk (x ∷ b) ++ more ≡ hex (length (x ∷ b)) ++ (crlf ++ ((x ∷ b) ++ (crlf ++ more)))
unfolding write write_body
chunk-append x b more =
    let n = length (x ∷ b) in
    let same : (n == n) ≡ true = ground arith in
    rw same (
      append_assoc (hex n) (crlf ++ ((x ∷ b) ++ crlf)) more
      ∙ ap (λ (w : Bytes). hex n ++ (crlf ++ (x ∷ w))) (append_assoc b crlf more))

drop-past :
    (n : ℕ) (b more : Bytes) (x y : ℕ) → n ≡ length b + 2 → drop n (b ++ (x ∷ y ∷ more)) ≡ more
drop-past zero b more x y e = absurd (omega arith)
drop-past (suc n) [] more x y e =
    let one : 1 ≡ n = omega arith in subst (λ k. drop (suc k) (x ∷ y ∷ more) ≡ more) one refl
drop-past (suc n) (z ∷ b) more x y e = drop-past n b more x y (omega arith)

-- A decoder that has read the size goes on with the piece.
after_size :
    (fuel : ℕ) (w b more : Bytes)
    → b ≢ []
    → read_size 0 w ≡ some (length b, b ++ (crlf ++ more))
    → unchunk (suc fuel) w ≡ with_piece b (unchunk fuel more)
unfolding unchunk
after_size fuel w [] more some_bytes e = absurd (some_bytes refl)
after_size fuel w (x ∷ b) more some_bytes e =
    let n = length (x ∷ b) in
    let long : leb (n + 2) (length ((x ∷ b) ++ (crlf ++ more))) ≡ true =
      ground (arith, length-append b (crlf ++ more)) in
    ground (
      arith,
      e,
      long,
      drop-past (n + 2) (x ∷ b) more 13 10 (omega arith),
      take-append (x ∷ b) (crlf ++ more),
    )

unchunk-chunk :
    (fuel : ℕ) (b more : Bytes)
    → b ≢ []
    → unchunk (suc fuel) (chunk b ++ more) ≡ with_piece b (unchunk fuel more)
unchunk-chunk fuel [] more some_bytes = absurd (some_bytes refl)
unchunk-chunk fuel (x ∷ b) more some_bytes =
    after_size fuel (chunk (x ∷ b) ++ more) (x ∷ b) more some_bytes (
      ap (read_size 0) (chunk-append x b more)
      ∙ read_size-hex (length (x ∷ b)) ((x ∷ b) ++ (crlf ++ more)))

-- Pieces that are written in chunks, each with a byte at least, and closed are what the decoder
-- reads, whatever follows.
pub unchunk-chunks :
    (bs : List Bytes) (rest : Bytes)
    → All (λ b. b ≢ []) bs
    → unchunk (suc (length bs)) (chunks bs ++ rest) ≡ some (joined bs, rest)
unfolding unchunk read_size close
unchunk-chunks [] rest all = refl
unchunk-chunks (b ∷ bs) rest (some_bytes, all) =
    ap (λ (w : Bytes). unchunk (suc (suc (length bs))) w) (append_assoc (chunk b) (chunks bs) rest)
    ∙ unchunk-chunk (suc (length bs)) b (chunks bs ++ rest) some_bytes
    ∙ ap (with_piece b) (unchunk-chunks bs rest all)
