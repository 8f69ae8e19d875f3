-- ===== src/Goproxy/Counter/Keystream.antt =====
-- The bytes that a generator gives are one stream, the encryptions of its counter one after the
-- other.
use n6bagent.Prelude.{
  ℕ, zero, suc, ◌+◌, ◌-◌, ◌≤◌, ◌≡◌, refl, ◌∙◌, ap, ap₂, sym, List, [], ◌∷◌, ◌++◌, length,
  length-append, length-take, length-drop, take, drop, take_more, drop-append_le, take-append_le,
  drop-drop, drop-all, min, ◌==◌, Bool-cases, inl, inr, if_true, if_false, arith, subst,
}
use n6bagent.Goproxy.Http.{Bytes}
use n6bagent.Goproxy.Counter.{Generator, increment, refill, given, read}

-- Blocks of a counter that goes on.
abbrev pub keystream : (Bytes → Bytes) → ℕ → Bytes → Bytes
keystream encrypt zero counter = []
keystream encrypt (suc k) counter = encrypt counter ++ keystream encrypt k (increment counter)

-- What is left of the block that was filled last, and the next blocks.
abbrev pub ahead : ℕ → Generator → Bytes
ahead k c = drop c.ix c.rand ++ keystream c.cipher.encrypt k c.counter

-- Every block has the size of the first.
pub record Blocks (c : Generator) : Type 0 where
  pub sized : (b : Bytes) → length (c.cipher.encrypt b) ≡ length c.rand
  pub within : c.ix ≤ length c.rand

abbrev pub reads : List ℕ → Generator → Bytes
reads [] c = []
reads (n ∷ ns) c = let (bs, c') = read n c in bs ++ reads ns c'

given-ahead :
    (k n : ℕ) (c : Generator)
    → c.ix ≤ length c.rand
    → let x = given n c in
      (x.0 ≡ take (length x.0) (ahead k c))
      × (ahead k x.1 ≡ drop (length x.0) (ahead k c))
      × (x.1.ix ≤ length x.1.rand)
given-ahead k n c le =
    let m = min (length c.rand - c.ix) n in
    let left = drop c.ix c.rand in
    let more = keystream c.cipher.encrypt k c.counter in
    let fits : m ≤ length left = omega (arith, length-drop c.ix c.rand) in
    let e : length (take m left) ≡ m = length-take m left fits in
    (
      sym (take-append_le m left more fits) ∙ ap (λ (i : ℕ). take i (left ++ more)) (sym e),
      ap (λ (bs : Bytes). bs ++ more) (sym (drop-drop c.ix m (c.ix + m) c.rand refl))
          ∙ sym (drop-append_le m left more fits)
          ∙ ap (λ (i : ℕ). drop i (left ++ more)) (sym e),
      omega arith,
    )

-- What a Read gives and leaves.
abbrev Steps : ℕ → Generator → Bytes × Generator → Type 0
Steps k c x =
    (x.0 ≡ take (length x.0) (ahead (suc k) c))
    × (j : ℕ) × (k ≤ j)
    × (ahead j x.1 ≡ drop (length x.0) (ahead (suc k) c))
    × Blocks x.1

refilled-ahead :
    (k : ℕ) (c : Generator) → c.ix ≡ length c.rand → ahead k (refill c) ≡ ahead (suc k) c
unfolding refill
refilled-ahead k c spent =
    let more = keystream c.cipher.encrypt (suc k) c.counter in
    ap (λ (bs : Bytes). bs ++ more) (sym (ap (λ (i : ℕ). drop i c.rand) spent ∙ drop-all c.rand))

refill-Blocks : (c : Generator) → Blocks c → Blocks (refill c)
unfolding refill
refill-Blocks c bl = record {
  sized = λ b. bl.sized b ∙ sym (bl.sized c.counter);
  within = omega arith;
}

given-Steps :
    (k j n : ℕ) (c d : Generator)
    → Blocks d
    → k ≤ j
    → ahead j d ≡ ahead (suc k) c
    → Steps k c (given n d)
given-Steps k j n c d bl le same =
    let (bytes, left, fits) = given-ahead j n d bl.within in
    let x = given n d in
    (
      bytes ∙ ap (take (length x.0)) same,
      j,
      le,
      left ∙ ap (drop (length x.0)) same,
      record { sized = bl.sized; within = fits },
    )

read-Steps : (k n : ℕ) (c : Generator) → Blocks c → Steps k c (read n c)
unfolding read
read-Steps k n c bl = elim (Bool-cases (c.ix == length c.rand)) [
  | inl spent ↦ subst (Steps k c) (sym (if_true _ _ spent)) (
      given-Steps k k n c (refill c) (refill-Blocks c bl) (omega arith)
        (refilled-ahead k c (ground arith)))
  | inr more ↦
      subst (Steps k c) (sym (if_false _ _ more))
        (given-Steps k (suc k) n c c bl (omega arith) refl)
]

-- Reads one after the other give the stream from its beginning: what was left of the block before
-- them, and then the encryptions of the counter and of its successors, in order and with nothing
-- left out.
pub reads-keystream :
    (ns : List ℕ) (k : ℕ) (c : Generator)
    → Blocks c
    → length ns ≤ k
    → reads ns c ≡ take (length (reads ns c)) (ahead k c)
reads-keystream [] k c bl le = refl
reads-keystream (n ∷ ns) zero c bl le = absurd (omega arith)
reads-keystream (n ∷ ns) (suc k) c bl le =
    let x = read n c in
    let (bytes, j, enough, left, bl') = read-Steps k n c bl in
    let rest = reads ns x.1 in
    let all = ahead (suc k) c in
    let ih : rest ≡ take (length rest) (ahead j x.1) = reads-keystream ns j x.1 bl' (omega arith) in
    ap₂ ◌++◌ bytes (ih ∙ ap (take (length rest)) left)
    ∙ sym (take_more (length x.0) (length rest) all)
    ∙ ap (λ (i : ℕ). take i all) (sym (length-append x.0 rest))
