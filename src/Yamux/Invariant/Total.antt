-- ===== src/Yamux/Invariant/Total.antt =====
-- recv keeps the invariant, does not panic, and ends.
use n6bagent.Prelude.{
  ℕ, zero, suc, ◌+◌, ◌*◌, ◌≤◌, ◌<◌, ◌≡◌, ◌≢◌, refl, ◌∙◌, true, Option, none, some, List, [], ◌∷◌,
  length, length-drop, length-set, arith, drop, take, set, get_elem?, Option-cases, Bool-cases, inl,
  inr, ◌==◌, ltb,
}
use n6bagent.Yamux.Const.{Error, header_size, proto_version, invalid_version}
use n6bagent.Yamux.Header.{version}
use n6bagent.Yamux.State.{Session, Stream, Wait, ◌>>=◌}
use n6bagent.Yamux.Session.{exit_err, close_session, force_close_all}
use n6bagent.Yamux.Stream.{force_close}
use n6bagent.Yamux.Recv.{short_error, recv_round, recv}
use n6bagent.Yamux.Invariant.{Inv, IsFair}
use n6bagent.Yamux.Invariant.Receiving.{drop-Keeps}
use n6bagent.Yamux.Invariant.Loop.{dispatch-Safe}

-- If the other goroutines keep the rules, one round of recv keeps the invariant and does not panic.
-- A round with no error took the twelve bytes of a header at least.
pub recv_round-Inv :
    (w u : Wait) (s : Session)
    → IsFair w
    → IsFair u
    → Inv s
    → (e : Option Error) × (t : Session) × (recv_round w u s ≡ some (e, t))
      × Inv t
      × (e ≡ none → length t.input + header_size ≤ length s.input)
unfolding recv_round
recv_round-Inv w u s fw fu v = elim (Bool-cases (ltb (length s.input) header_size)) [
  | inl short ↦ (
    some (short_error s.input s.input_end),
    record s { input = drop header_size s.input },
    rw short,
    (drop-Keeps header_size s).still v,
    λ e. cc,
  )
  | inr whole ↦ elim (Bool-cases (version (take header_size s.input) == proto_version)) [
    | inl good ↦
        let cut = drop-Keeps header_size s in
        let (e, t, eq, keep) =
          dispatch-Safe 0 (take header_size s.input) w u fw fu
            (record s { input = drop header_size s.input }) (cut.still v) (omega arith) in
        (
          e,
          t,
          rw (whole, good) eq,
          keep.still (cut.still v),
          λ n. ground (arith, keep.consumed, length-drop header_size s.input),
        )
    | inr bad ↦ (
      some invalid_version,
      record s { input = drop header_size s.input },
      rw (whole, bad),
      (drop-Keeps header_size s).still v,
      λ e. cc,
    )
  ]
]

length-force_close_all :
    (m : List (ℕ × ℕ)) (store : List Stream) → length (force_close_all m store) ≡ length store
unfolding force_close_all
length-force_close_all [] store = refl
length-force_close_all ((id, ref) ∷ m) store = elim (Option-cases (get_elem? store ref)) [
  | inl e ↦ rw e (length-force_close_all m store)
  | inr (st, e) ↦ rw e (
      omega (
        arith,
        length-force_close_all m (set store ref (force_close st)),
        length-set store ref (force_close st),
      ))
]

pub exit_err-Inv : (e : Error) (s : Session) → Inv s → Inv (exit_err e s)
unfolding exit_err close_session
exit_err-Inv e s v = elim (Bool-cases s.shutdown) [
  | inl old ↦ rw old (record { mapped = v.mapped; backlog = v.backlog })
  | inr live ↦ rw live (record {
    mapped = λ i r f. omega (arith, v.mapped i r f, length-force_close_all s.streams s.store);
    backlog = v.backlog;
  })
]

exit_err_ends :
    (e : Error) (s : Session)
    → ((exit_err e s).shutdown ≡ true) × ((exit_err e s).shutdown_err ≢ none)
unfolding exit_err close_session
exit_err_ends e s = ground arith

module _ (fuel : ℕ) (waits : ℕ → Wait × Wait) (s t : Session) where
  recv_next :
      recv_round (waits fuel).0 (waits fuel).1 s ≡ some (none, t)
      → recv (suc fuel) waits s ≡ recv fuel waits t
  unfolding recv
  recv_next e = rw (e, ◌>>=◌)

  recv_last :
      (x : Error)
      → recv_round (waits fuel).0 (waits fuel).1 s ≡ some (some x, t)
      → recv (suc fuel) waits s ≡ some (true, exit_err x t)
  unfolding recv
  recv_last x e = rw (e, ◌>>=◌)

-- Enough fuel for the input, twelve bytes to a round, brings recv to its end, whatever bytes the
-- peer sent and whatever the other goroutines do, if they keep the rules. It does not panic, and
-- the session is then shut down, or was already, with an error recorded for the users.
pub recv-ends :
    (fuel : ℕ) (waits : ℕ → Wait × Wait) (s : Session)
    → ((i : ℕ) → IsFair (waits i).0 × IsFair (waits i).1)
    → Inv s
    → length s.input < header_size * fuel
    → (t : Session) × (recv fuel waits s ≡ some (true, t))
      × Inv t
      × (t.shutdown ≡ true)
      × (t.shutdown_err ≢ none)
recv-ends zero waits s fair v h = absurd (omega arith)
recv-ends (suc fuel) waits s fair v h =
    let (e, t, eq, inv, less) =
      recv_round-Inv (waits fuel).0 (waits fuel).1 s (fair fuel).0 (fair fuel).1 v in
    elim (Option-cases e) [
      | inl n ↦
          let (u, ends, keep, down, told) =
            recv-ends fuel waits t fair inv (omega (arith, less n)) in
          (u, recv_next fuel waits s t (rw n at eq) ∙ ends, keep, down, told)
      | inr (x, n) ↦ (
        exit_err x t,
        recv_last fuel waits s t x (rw n at eq),
        exit_err-Inv x t inv,
        (exit_err_ends x t).0,
        (exit_err_ends x t).1,
      )
    ]
