-- ===== src/Goproxy/Regret/Runs.antt =====
-- Sequences of Reads of a regretable reader.
use n6bagent.Prelude.{
  ℕ, ◌+◌, ◌≡◌, refl, ◌∙◌, ap, ap₂, sym, false, some, List, [], ◌∷◌, ◌++◌, length, length-append,
  take, drop, arith, inl, inr, subst, take_add,
}
use n6bagent.Goproxy.Http.{Bytes, Error}
use n6bagent.Goproxy.Regret.{Reader, new_reader_size, regret, read}
use n6bagent.Goproxy.Regret.Kept.{Stands}
use n6bagent.Goproxy.Regret.Replay.{read-Stands, regret-Kept, new_reader_size-Kept}

-- The bytes of Reads one after the other, each of some number of bytes, of which the reader below
-- gives at most a second number, and the reader at the end.
abbrev pub reads : List (ℕ × ℕ) → Reader → Bytes × Reader
reads [] rb = ([], rb)
reads ((n, k) ∷ asks) rb =
    let x = read n k rb in let (bs, rb') = reads asks x.1 in (x.0.0 ++ bs, rb')

-- Reads one after the other give the stream from the position on.
pub reads-Stands :
    (asks : List (ℕ × ℕ)) (rb : Reader) (base : Bytes) (pos : ℕ)
    → Stands rb base pos
    → let x = reads asks rb in
      (x.0 ≡ take (length x.0) (drop pos base)) × Stands x.1 base (pos + length x.0)
reads-Stands [] rb base pos st = (refl, subst (Stands rb base) (omega arith) st)
reads-Stands ((n, k) ∷ asks) rb base pos st =
    let x = read n k rb in
    let (here, on) = read-Stands n k rb base pos st in
    let (rest, end) = reads-Stands asks x.1 base (pos + length x.0.0) on in
    let bs = (reads asks x.1).0 in
    let e : length (x.0.0 ++ bs) ≡ length x.0.0 + length bs = length-append x.0.0 bs in
    (
      ap₂ ◌++◌ here rest
          ∙ sym (take_add (length x.0.0) (length bs) pos base)
          ∙ ap (λ (i : ℕ). take i (drop pos base)) (sym e),
      subst (Stands (reads asks x.1).1 base) (omega (arith, e)) end,
    )

-- The bytes of a reader that is new, after any Reads and a Regret, are those of its input from the
-- beginning, as long as what was read has not overflowed the buffer.
pub regret_replays :
    (asks again : List (ℕ × ℕ)) (input : Bytes) (input_end : Error) (size : ℕ)
    → let x = reads asks (new_reader_size input input_end size) in
      x.1.overflow ≡ false
      → (rb : Reader) × (regret x.1 ≡ some rb)
        × ((reads again rb).0 ≡ take (length (reads again rb).0) input)
regret_replays asks again input input_end size room =
    let x = reads asks (new_reader_size input input_end size) in
    elim ((reads-Stands asks _ input 0 (inl (new_reader_size-Kept input input_end size))).1) [
      | inl st ↦
          let (rb, set, begin) = regret-Kept x.1 input _ st in
          (rb, set, (reads-Stands again rb input 0 (inl begin)).0)
      | inr sp ↦ absurd (ground (arith, sp.over, room))
    ]
