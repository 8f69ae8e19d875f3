-- ===== src/Goproxy/Chunked.antt =====
-- chunked.go: the chunked transfer encoding, over what each write of the connection takes.
pub mod Decoding
use n6bagent.Prelude.{
  ℕ, zero, suc, ◌+◌, ◌/◌, ◌%◌, Option, none, some, [], ◌∷◌, ◌++◌, length, take, ltb, ◌==◌,
  if◌then◌else◌,
}
use n6bagent.Goproxy.Http.{Bytes, Error, short_write}

-- `strconv.FormatInt(n, 16)`: the digits, the highest first, with fuel for their number.
abbrev pub digit : ℕ → ℕ
digit d = if ltb d 10 then d + 48 else d + 87

unfoldable pub hex_from : ℕ → ℕ → Bytes → Bytes
hex_from zero n tail = tail
hex_from (suc fuel) n tail =
    let more = hex_from fuel (n / 16) (digit (n % 16) ∷ tail) in
    if ltb n 16 then digit n ∷ tail else more

-- A number has no more digits than its value and one.
unfoldable pub hex : ℕ → Bytes
unfolding hex_from
hex n = hex_from (suc n) n []

abbrev pub crlf : Bytes
crlf = 13 ∷ 10 ∷ []

-- What three writes of the connection give: the error of the first, the count and the error of the
-- second, and the error of the third.
pub record Wire : Type 0 where
  pub head_failure : Option Error
  pub taken : ℕ
  pub body_failure : Option Error
  pub end_failure : Option Error

-- Write: what is put out, and Go's count and error.
unfoldable pub write_body : Bytes → Wire → Bytes × (ℕ × Option Error)
write_body data_in w = elim w.body_failure [
  | some e ↦ (take w.taken data_in, (w.taken, some e))
  | none ↦
      if w.taken == length data_in
      then (data_in ++ crlf, (length data_in, w.end_failure))
      else (take w.taken data_in, (w.taken, some short_write))
]

unfoldable pub write : Bytes → Wire → Bytes × (ℕ × Option Error)
write [] w = ([], (0, none))
write (b ∷ bs) w = elim w.head_failure [
  | some e ↦ ([], (0, some e))
  | none ↦ let rest = write_body (b ∷ bs) w in (hex (length (b ∷ bs)) ++ (crlf ++ rest.0), rest.1)
]

-- Close: the chunk of length 0.
unfoldable pub close : Bytes
close = 48 ∷ crlf
