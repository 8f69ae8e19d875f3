-- ===== src/Goproxy/Regret/Kept.antt =====
-- What the buffer of a regretable reader holds of its stream.
use n6bagent.Prelude.{
  ℕ, ◌+◌, ◌-◌, ◌≤◌, ◌≡◌, refl, ◌∙◌, ap, sym, Bool, true, false, ◌++◌, append_assoc, length,
  length-append, length-take, length-drop, take, drop, take-append-drop, take-length-take,
  drop-length-take, drop-drop, drop-append_le, take-append_le, take-drop-take, take-append, min,
  ltb, ap₂, arith, Bool-cases, subst, take-all, ◌⊎◌, inl, inr,
}
use n6bagent.Goproxy.Http.{Bytes}
use n6bagent.Goproxy.Regret.{Reader, buffered}

-- The stream from the last Forget on, and the position in it, while the buffer holds all of the
-- stream that was read from below.
pub record Kept (rb : Reader) (base : Bytes) (pos : ℕ) : Type 0 where
  pub kept : rb.overflow ≡ false
  pub whole : base ≡ take rb.w rb.buf ++ rb.input
  pub here : pos ≡ rb.r
  pub within : rb.r ≤ rb.w
  pub fits : rb.w ≤ length rb.buf

-- Once the buffer has overflowed, only what follows is known.
pub record Spilled (rb : Reader) (base : Bytes) (pos : ℕ) : Type 0 where
  pub over : rb.overflow ≡ true
  pub ahead : rb.input ≡ drop pos base

abbrev pub Stands : Reader → Bytes → ℕ → Type 0
Stands rb base pos = Kept rb base pos ⊎ Spilled rb base pos

-- The bytes of a Read of the reader below.
pub next_bytes :
    (m pos : ℕ) (base input : Bytes)
    → input ≡ drop pos base
    → (take m input ≡ take (length (take m input)) (drop pos base))
      × (drop m input ≡ drop (pos + length (take m input)) base)
next_bytes m pos base input e =
    let n = length (take m input) in
    (
      sym (take-length-take m input) ∙ ap (take n) e,
      sym (drop-length-take m input) ∙ ap (drop n) e ∙ drop-drop pos n (pos + n) base (omega arith),
    )

-- What a Read takes from the buffer.
pub again_bytes :
    (m : ℕ) (rb : Reader) (base : Bytes) (pos : ℕ)
    → Kept rb base pos
    → pos + m ≤ rb.w
    → take m (drop rb.r rb.buf) ≡ take m (drop pos base)
again_bytes m rb base pos st le =
    let kept = take rb.w rb.buf in
    let long = length-take rb.w rb.buf st.fits in
    sym (take-drop-take m rb.r rb.w rb.buf (omega (arith, st.here)))
    ∙ sym (
        take-append_le m (drop rb.r kept) rb.input
          (omega (arith, st.here, long, length-drop rb.r kept)))
    ∙ ap (take m) (sym (drop-append_le rb.r kept rb.input (omega (arith, long, st.within))))
    ∙ ap (λ (i : ℕ). take m (drop i (kept ++ rb.input))) (sym st.here)
    ∙ ap (λ (bs : Bytes). take m (drop pos bs)) (sym st.whole)

pub length-again :
    (m r w : ℕ) (buf : Bytes) → r + m ≤ w → w ≤ length buf → length (take m (drop r buf)) ≡ m
length-again m r w buf le fits = length-take m (drop r buf) (omega (arith, length-drop r buf))

-- A piece is written behind the first `w` bytes of a buffer.
take-written :
    (w : ℕ) (buf p tl : Bytes)
    → w ≤ length buf
    → take (w + length p) (take w buf ++ (p ++ tl)) ≡ take w buf ++ p
take-written w buf p tl fits =
    let kept = take w buf in
    ap (take (w + length p)) (sym (append_assoc kept p tl))
    ∙ ap (λ (i : ℕ). take i ((kept ++ p) ++ tl))
        (omega (arith, length-append kept p, length-take w buf fits))
    ∙ take-append (kept ++ p) tl

length-written :
    (w : ℕ) (buf p : Bytes)
    → w + length p ≤ length buf
    → w + length p ≤ length (take w buf ++ (p ++ drop (w + length p) buf))
length-written w buf p fits =
    let tl = drop (w + length p) buf in
    omega (
      arith,
      length-append (take w buf) (p ++ tl),
      length-append p tl,
      length-take w buf (omega arith),
    )

-- What is buffered of bytes that fit.
buffered_fits :
    (p : Bytes) (rb : Reader)
    → min (length rb.buf - rb.w) (length p) ≡ length p
    → buffered p rb ≡ record rb {
      buf = take rb.w rb.buf ++ (p ++ drop (rb.w + length p) rb.buf);
      w = rb.w + length p;
      r = rb.w + length p;
      overflow = false;
    }
buffered_fits p rb fits =
    let tl = λ (i : ℕ). drop (rb.w + i) rb.buf in
    ap
      (λ (i : ℕ). record rb {
        buf = take rb.w rb.buf ++ (take i p ++ tl i);
        w = rb.w + i;
        r = rb.w + length p;
        overflow = ltb i (length p);
      })
      fits
    ∙ ap₂
        (λ (bs : Bytes) (o : Bool). record rb {
          buf = take rb.w rb.buf ++ (bs ++ tl (length p));
          w = rb.w + length p;
          r = rb.w + length p;
          overflow = o;
        })
        (take-all p) (ground arith)

pub buffered-Stands :
    (m : ℕ) (rb : Reader) (base : Bytes) (pos : ℕ)
    → Kept rb base pos
    → pos ≡ rb.w
    → rb.input ≡ drop pos base
    → Stands
        (buffered (take m rb.input) (record rb { input = drop m rb.input }))
        base
        (pos + length (take m rb.input))
buffered-Stands m rb base pos st end ahead =
    let p = take m rb.input in
    let rest = record rb { input = drop m rb.input } in
    elim (Bool-cases (ltb (min (length rb.buf - rb.w) (length p)) (length p))) [
      | inl over ↦ inr (record { over = over; ahead = (next_bytes m pos base rb.input ahead).1 })
      | inr room ↦
          let all : min (length rb.buf - rb.w) (length p) ≡ length p = ground arith in
          let fits : rb.w + length p ≤ length rb.buf = omega (arith, all) in
          subst (λ (rb' : Reader). Stands rb' base (pos + length p))
            (sym (buffered_fits p rest all))
            (inl (record {
              kept = refl;
              whole =
                  st.whole
                  ∙ ap (◌++◌ (take rb.w rb.buf)) (sym (take-append-drop m rb.input))
                  ∙ sym (append_assoc (take rb.w rb.buf) p (drop m rb.input))
                  ∙ ap (λ (bs : Bytes). bs ++ drop m rb.input)
                      (sym (take-written rb.w rb.buf p (drop (rb.w + length p) rb.buf) st.fits));
              here = omega arith;
              within = omega arith;
              fits = length-written rb.w rb.buf p fits;
            }))
    ]
