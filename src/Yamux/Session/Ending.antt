-- ===== src/Yamux/Session/Ending.antt =====
-- How a session ends, and what becomes of its streams.
use n6bagent.Prelude.{
  ℕ, ◌<◌, ◌≡◌, ◌∙◌, subst, ==_iff, Bool-cases, get_elem?-set_ne, length-set, true, false, none,
  some, List, [], ◌∷◌, length, arith, get_elem?, set, get_elem?-set, get_elem?-of_lt, Option-cases,
  inl, inr, ◌==◌,
}
use n6bagent.Prelude.Assoc.{lookup}
use n6bagent.Yamux.Const.{Error}
use n6bagent.Yamux.State.{Session, Stream, closed}
use n6bagent.Yamux.Stream.{force_close}
use n6bagent.Yamux.Session.{force_close_all, close_session, exit_err}

-- A stream that was closed by force: its readers and writers are woken and find it closed.
pub record IsEnded (st : Stream) : Type 0 where
  pub is_closed : st.state ≡ closed
  pub readers_woken : st.recv_notify ≡ true
  pub writers_woken : st.send_notify ≡ true

-- The position holds a stream that was ended.
abbrev pub EndedAt : ℕ → List Stream → Type 0
EndedAt ref store = (st : Stream) × (get_elem? store ref ≡ some st) × IsEnded st

force_close-EndedAt :
    (store : List Stream) (ref : ℕ) (st : Stream)
    → get_elem? store ref ≡ some st
    → EndedAt ref (set store ref (force_close st))
unfolding force_close
force_close-EndedAt store ref st e =
    (force_close st, get_elem?-set store ref (force_close st) st e, ground arith)

set-EndedAt :
    (store : List Stream) (i ref : ℕ) (st : Stream)
    → get_elem? store i ≡ some st
    → EndedAt ref store
    → EndedAt ref (set store i (force_close st))
set-EndedAt store i ref st e (old, there, ended) = elim (Bool-cases (i == ref)) [
  | inl same ↦
      subst (λ r. EndedAt r (set store i (force_close st))) ((==_iff i ref).0 same)
        (force_close-EndedAt store i st e)
  | inr other ↦ (old, get_elem?-set_ne store i ref (force_close st) (ground arith) ∙ there, ended)
]

-- What was ended stays so in the rest of the loop.
loop-EndedAt :
    (m : List (ℕ × ℕ)) (store : List Stream) (ref : ℕ)
    → EndedAt ref store
    → EndedAt ref (force_close_all m store)
unfolding force_close_all
loop-EndedAt [] store ref h = h
loop-EndedAt ((j, r) ∷ m) store ref h = elim (Option-cases (get_elem? store r)) [
  | inl e ↦ rw e (loop-EndedAt m store ref h)
  | inr (st, e) ↦
      rw e (loop-EndedAt m (set store r (force_close st)) ref (set-EndedAt store r ref st e h))
]

mapped-EndedAt :
    (m : List (ℕ × ℕ)) (store : List Stream) (id ref : ℕ)
    → lookup id m ≡ some ref
    → ref < length store
    → EndedAt ref (force_close_all m store)
unfolding force_close_all lookup
mapped-EndedAt [] store id ref found lt = cc
mapped-EndedAt ((j, r) ∷ m) store id ref found lt = elim (Option-cases (get_elem? store r)) [
  | inl e ↦ rw e (elim (Bool-cases (j == id)) [
    | inl hit ↦ absurd (cc (e, (get_elem?-of_lt store ref lt).1, rw hit at found))
    | inr miss ↦ mapped-EndedAt m store id ref (rw miss at found) lt
  ])
  | inr (st, e) ↦ rw e (elim (Bool-cases (j == id)) [
    | inl hit ↦
        let same : r ≡ ref = cc (rw hit at found) in
        loop-EndedAt m (set store r (force_close st)) ref (
          subst (λ q. EndedAt q (set store r (force_close st))) same
            (force_close-EndedAt store r st e))
    | inr miss ↦
        mapped-EndedAt m (set store r (force_close st)) id ref (rw miss at found)
          (omega (arith, length-set store r (force_close st)))
  ])
]

-- In a session that runs, whose map points to streams, the first error that ends it is the one that
-- its users see, its connection is closed, and every stream of its map is closed with its readers
-- and writers woken. A later error changes nothing.
pub exit_err-ends :
    (e : Error) (s : Session)
    → ((id ref : ℕ) → lookup id s.streams ≡ some ref → ref < length s.store)
    → s.shutdown ≡ false
    → s.shutdown_err ≡ none
    → ((exit_err e s).shutdown_err ≡ some e)
      × ((exit_err e s).conn_closed ≡ true)
      × ((exit_err e s).shutdown_ch ≡ true)
      × ((id ref : ℕ) → lookup id s.streams ≡ some ref → EndedAt ref (exit_err e s).store)
      × ((d : Error) → exit_err d (exit_err e s) ≡ exit_err e s)
unfolding exit_err close_session
exit_err-ends e s valid live fresh = (
  ground arith,
  ground arith,
  ground arith,
  λ id ref found. rw live (mapped-EndedAt s.streams s.store id ref found (valid id ref found)),
  λ d. ground arith,
)
