-- ===== src/Goproxy/Regret/Replay.antt =====
-- A regretable reader is a position in a stream that can be set back to its beginning.
use n6bagent.Prelude.{
  ℕ, ◌+◌, ◌-◌, ◌≤◌, ◌≡◌, refl, ◌∙◌, ap, sym, true, false, Option, none, some, ◌++◌, length,
  length-take, take, drop, drop-append, min, ltb, arith, Bool-cases, if_true, if_false, subst, inl,
  inr,
}
use n6bagent.Goproxy.Http.{Bytes, Error}
use n6bagent.Goproxy.Regret.{
  Reader, new_reader_size, regret, forget, read, given, buffered, end_error,
}
use n6bagent.Goproxy.Regret.Kept.{
  Kept, Stands, next_bytes, again_bytes, length-again, buffered-Stands,
}

-- The stream behind all that was read from below.
rest_of : (rb : Reader) (base : Bytes) (pos : ℕ) → Kept rb base pos → drop rb.w base ≡ rb.input
rest_of rb base pos st =
    let kept = take rb.w rb.buf in
    ap (drop rb.w) st.whole
    ∙ ap (λ (i : ℕ). drop i (kept ++ rb.input)) (sym (length-take rb.w rb.buf st.fits))
    ∙ drop-append kept rb.input

at_end :
    (rb : Reader) (base : Bytes) (pos : ℕ)
    → Kept rb base pos
    → pos ≡ rb.w
    → rb.input ≡ drop pos base
at_end rb base pos st end = sym (rest_of rb base pos st) ∙ ap (λ (i : ℕ). drop i base) (sym end)

-- The three cases of Read.
read_spilled :
    (n k : ℕ) (rb : Reader)
    → rb.overflow ≡ true
    → read n k rb ≡ ((given n k rb, end_error rb), record rb { input = drop (min k n) rb.input })
unfolding read
read_spilled n k rb over = if_true _ _ over

read_again :
    (n k : ℕ) (rb : Reader)
    → rb.overflow ≡ false
    → ltb rb.r rb.w ≡ true
    → read n k rb ≡ (
      (take (min n (rb.w - rb.r)) (drop rb.r rb.buf), none),
      record rb { r = rb.r + min n (rb.w - rb.r) },
    )
unfolding read
read_again n k rb kept again = if_false _ _ kept ∙ if_true _ _ again

read_further :
    (n k : ℕ) (rb : Reader)
    → rb.overflow ≡ false
    → ltb rb.r rb.w ≡ false
    → read n k rb ≡ (
      (given n k rb, end_error rb),
      buffered (given n k rb) (record rb { input = drop (min k n) rb.input }),
    )
unfolding read
read_further n k rb kept below = if_false _ _ kept ∙ if_false _ _ below

-- What a Read gives is the stream from the position on.
abbrev pub Advances : Reader → Bytes → ℕ → (Bytes × Option Error) × Reader → Type 0
Advances rb base pos x =
    (x.0.0 ≡ take (length x.0.0) (drop pos base)) × Stands x.1 base (pos + length x.0.0)

-- The bytes of a Read are the next ones of the stream, and the position moves on by their number.
pub read-Stands :
    (n k : ℕ) (rb : Reader) (base : Bytes) (pos : ℕ)
    → Stands rb base pos
    → Advances rb base pos (read n k rb)
read-Stands n k rb base pos (inr sp) =
    let (bytes, left) = next_bytes (min k n) pos base rb.input sp.ahead in
    subst (Advances rb base pos) (sym (read_spilled n k rb sp.over))
      (bytes, inr (record { over = sp.over; ahead = left }))
read-Stands n k rb base pos (inl st) = elim (Bool-cases (ltb rb.r rb.w)) [
  | inl again ↦ subst (Advances rb base pos) (sym (read_again n k rb st.kept again)) (
      let m = min n (rb.w - rb.r) in
      let le : rb.r + m ≤ rb.w = omega (arith, st.within) in
      let long = length-again m rb.r rb.w rb.buf le st.fits in
      let le' : pos + m ≤ rb.w = omega (arith, st.here) in
      (
        again_bytes m rb base pos st le' ∙ ap (λ (i : ℕ). take i (drop pos base)) (sym long),
        inl (record {
          kept = st.kept;
          whole = st.whole;
          here = omega (arith, long, st.here);
          within = le;
          fits = st.fits;
        }),
      ))
  | inr below ↦ subst (Advances rb base pos) (sym (read_further n k rb st.kept below)) (
      let end : pos ≡ rb.w = ground arith in
      let ahead = at_end rb base pos st end in
      (
        (next_bytes (min k n) pos base rb.input ahead).0,
        buffered-Stands (min k n) rb base pos st end ahead,
      ))
]

-- Regret sets the position back to the beginning, as long as the buffer has not overflowed.
pub regret-Kept :
    (rb : Reader) (base : Bytes) (pos : ℕ)
    → Kept rb base pos
    → (rb' : Reader) × (regret rb ≡ some rb') × Kept rb' base 0
unfolding regret
regret-Kept rb base pos st = (
  record rb { r = 0 },
  rw st.kept,
  record { kept = st.kept; whole = st.whole; here = refl; within = omega arith; fits = st.fits },
)

-- Forget makes the stream begin behind all that was read from below, not at the position: after a
-- Regret, what was not yet read again is lost.
pub forget-Kept :
    (rb : Reader) (base : Bytes) (pos : ℕ)
    → Kept rb base pos
    → (rb' : Reader) × (forget rb ≡ some rb') × Kept rb' (drop rb.w base) 0
unfolding forget
forget-Kept rb base pos st = (
  record rb { r = 0; w = 0 },
  rw st.kept,
  record {
    kept = st.kept;
    whole = rest_of rb base pos st;
    here = refl;
    within = omega arith;
    fits = omega arith;
  },
)

pub new_reader_size-Kept :
    (input : Bytes) (input_end : Error) (size : ℕ)
    → Kept (new_reader_size input input_end size) input 0
unfolding new_reader_size
new_reader_size-Kept input input_end size = record {
  kept = refl;
  whole = refl;
  here = refl;
  within = omega arith;
  fits = omega arith;
}
