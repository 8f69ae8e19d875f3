-- ===== src/Yamux/Pipe/Fifo.antt =====
-- The abstract view of a stream: a queue of bytes, of which the one end sees what is put in and
-- the other what is taken out.
use n6bagent.Prelude.{◌≡◌, ap, ◌∙◌, sym, List, [], ◌∷◌, ◌++◌, append-nil, append_assoc}
use n6bagent.Yamux.Header.{Bytes}
use n6bagent.Yamux.Pipe.{Event, wrote, gave, silent}

pub data Fifo (q r : Bytes) : Event → Type 0 where
  put : (b : Bytes) → r ≡ q ++ b → Fifo q r (wrote b)
  get : (b : Bytes) → q ≡ b ++ r → Fifo q r (gave b)
  skip : q ≡ r → Fifo q r silent

pub data FifoRuns : Bytes → List Event → Bytes → Type 0 where
  stop : {q : Bytes} → FifoRuns q [] q
  then :
      {q r t : Bytes} {e : Event} {es : List Event}
      → Fifo q r e
      → FifoRuns r es t
      → FifoRuns q (e ∷ es) t

abbrev written_of : Event → Bytes
written_of (wrote b) = b
written_of _ = []

abbrev given_of : Event → Bytes
given_of (gave b) = b
given_of _ = []

abbrev pub written : List Event → Bytes
written [] = []
written (e ∷ es) = written_of e ++ written es

abbrev pub given : List Event → Bytes
given [] = []
given (e ∷ es) = given_of e ++ given es

-- What is taken out of a queue, followed by what is left, is what was there and what was put in.
pub FifoRuns-given :
    {q t : Bytes} {es : List Event} → FifoRuns q es t → given es ++ t ≡ q ++ written es
FifoRuns-given {q} stop = sym (append-nil q)
FifoRuns-given {q} (then {es} (put b e) run) =
    FifoRuns-given run ∙ ap (λ (x : Bytes). x ++ written es) e ∙ append_assoc q b (written es)
FifoRuns-given {q} (then {r} {t} {es} (get b e) run) =
    append_assoc b (given es) t
    ∙ ap (◌++◌ b) (FifoRuns-given run)
    ∙ sym (append_assoc b r (written es))
    ∙ ap (λ (x : Bytes). x ++ written es) (sym e)
FifoRuns-given {q} (then {es} (skip e) run) =
    FifoRuns-given run ∙ ap (λ (x : Bytes). x ++ written es) (sym e)
