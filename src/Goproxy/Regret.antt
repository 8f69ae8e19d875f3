-- ===== src/Goproxy/Regret.antt =====
-- regretable/regretreader.go: a reader that can be set back to where it began.
pub mod Kept
pub mod Replay
pub mod Runs
use n6bagent.Prelude.{
  ℕ, ◌+◌, ◌-◌, Bool, false, Option, none, some, [], ◌∷◌, ◌++◌, length, take, drop, min, ltb,
  if◌then◌else◌,
}
use n6bagent.Goproxy.Http.{Bytes, Error, zeros}

-- RegretableReader. The underlying reader is the bytes that it has still to give and the error
-- behind them.
pub record Reader : Type 0 where
  pub input : Bytes
  pub input_end : Error
  pub overflow : Bool
  pub r : ℕ
  pub w : ℕ
  pub buf : Bytes

-- NewRegretableReaderSize; the buffer is zero.
unfoldable pub new_reader_size : Bytes → Error → ℕ → Reader
new_reader_size input input_end size = record {
  input = input;
  input_end = input_end;
  overflow = false;
  r = 0;
  w = 0;
  buf = zeros size;
}

-- NewRegretableReader, with defaultBufferSize.
unfoldable pub new_reader : Bytes → Error → Reader
unfolding new_reader_size
new_reader input input_end = new_reader_size input input_end 500

-- Regret and Forget; `none` is a panic.
unfoldable pub regret : Reader → Option Reader
regret rb = if rb.overflow then none else some (record rb { r = 0 })

unfoldable pub forget : Reader → Option Reader
forget rb = if rb.overflow then none else some (record rb { r = 0; w = 0 })

-- A Read of the underlying reader into `n` bytes, of which it gives at most `k`.
abbrev pub given : ℕ → ℕ → Reader → Bytes
given n k rb = take (min k n) rb.input

abbrev pub end_error : Reader → Option Error
end_error rb = elim rb.input [ [] ↦ some rb.input_end | b ∷ bs ↦ none ]

-- What is buffered of bytes that were read.
abbrev pub buffered : Bytes → Reader → Reader
buffered p rb =
    let bn = min (length rb.buf - rb.w) (length p) in
    record rb {
      buf = take rb.w rb.buf ++ (take bn p ++ drop (rb.w + bn) rb.buf);
      w = rb.w + bn;
      r = rb.w + length p;
      overflow = ltb bn (length p);
    }

-- Read into `n` bytes: the bytes, the error, and the reader.
unfoldable pub read : ℕ → ℕ → Reader → (Bytes × Option Error) × Reader
read n k rb =
    let rest = record rb { input = drop (min k n) rb.input } in
    if rb.overflow
    then ((given n k rb, end_error rb), rest)
    else if ltb rb.r rb.w
    then (
      (take (min n (rb.w - rb.r)) (drop rb.r rb.buf), none),
      record rb { r = rb.r + min n (rb.w - rb.r) },
    )
    else ((given n k rb, end_error rb), buffered (given n k rb) rest)
