-- ===== src/Yamux/Io/Total.antt =====
-- Write comes back, whatever the window and the other goroutines do.
use n6bagent.Prelude.{
  ℕ, zero, suc, ◌+◌, ◌<◌, ◌≡◌, Bool, true, false, Option, none, some, List, [], ◌∷◌, length, drop,
  arith, All,
}
use n6bagent.Yamux.Const.{Error}
use n6bagent.Yamux.Header.{Bytes}
use n6bagent.Yamux.State.{Session, Stream, Wait, M, ◌>>=◌, return, load, save, modify}
use n6bagent.Yamux.Stream.{send_flags, flags_for, sub_uint32}
use n6bagent.Yamux.Invariant.{
  Inv, Keeps, IsFair, Safe, >>=-Safe, return-Safe, modify-Safe, load-Safe, save-Safe, if-Safe,
  wait_for_send_err-Safe,
}
use n6bagent.Yamux.Io.{
  Io, done, blocked, spent, Wake, signal, timer, sent, send_chunk, write_pass, write, write_loop,
  write_all, timed_out, refusal, write_again, next_chunk,
}
use n6bagent.Yamux.Io.Writing.{IsCount, write_all-IsCount}

-- What ends a wait keeps to the rules too.
abbrev pub IsFairWake : Wake → Type 0
IsFairWake (signal f) = (s : Session) → Keeps s (f s)
IsFairWake (timer f) = (s : Session) → Keeps s (f s)

-- The waits of every call of `write`.
abbrev pub AreFair : (ℕ → Wait × List Wake) → Type 0
AreFair turns = (i : ℕ) → IsFair (turns i).0 × All IsFairWake (turns i).1

module _ (k ref : ℕ) (lt : ref < k) where
  -- A stream that is read and written back changed, and what is read of it.
  change-Safe {ℓ} :
      {A : Type ℓ} (f : Stream → Stream) (g : Stream → A)
      → Safe k (load ref >>= (λ st. save ref (f st) >>= (λ _. return (g st))))
  change-Safe f g =
      >>=-Safe k (load ref) _ (load-Safe k ref lt)
        λ st. >>=-Safe k (save ref (f st)) _ (save-Safe k ref (f st)) λ _. return-Safe k (g st)

  send_flags-Safe : Safe k (send_flags ref)
  unfolding send_flags
  send_flags-Safe =
      change-Safe (λ st. record st { state = (flags_for st.state).1 })
        (λ st. (flags_for st.state).0)

  sent-Safe : (n : ℕ) (e : Option Error) → Safe k (sent ref n e)
  unfolding sent
  sent-Safe n (some e) = return-Safe k _
  sent-Safe n none =
      change-Safe (λ st. record st { send_window = sub_uint32 st.send_window n }) (λ _. done n none)

  send_chunk-Safe : (st : Stream) (b : Bytes) (w : Wait) → IsFair w → Safe k (send_chunk ref st b w)
  unfolding send_chunk
  send_chunk-Safe st b w fair =
      >>=-Safe k (send_flags ref) _ send_flags-Safe
        λ fl. >>=-Safe k _ _ (wait_for_send_err-Safe _ w fair k _) λ e. sent-Safe _ e

  refused-Safe :
      (r : Option Error) (m : M Io)
      → Safe k m
      → Safe k (elim r [ some e ↦ return (done 0 (some e)) | none ↦ m ])
  refused-Safe (some e) m p = return-Safe k _
  refused-Safe none m p = p

  write_pass-Safe :
      (b : Bytes) (w : Wait) (wait : M Io)
      → IsFair w
      → Safe k wait
      → Safe k (write_pass ref b w wait)
  unfolding write_pass
  write_pass-Safe b w wait fair p =
      >>=-Safe k (load ref) _ (load-Safe k ref lt)
        λ st. refused-Safe (refusal st.state) _ (if-Safe k _ _ _ p (send_chunk-Safe st b w fair))

  timed_out-Safe : (d : Option ℕ) → Safe k (timed_out d)
  unfolding timed_out
  timed_out-Safe none = return-Safe k _
  timed_out-Safe (some d) = return-Safe k _

  again-Safe :
      (woken : Bool) (st : Stream) (m : M Io)
      → Safe k m
      → Safe k (elim woken [ false ↦ return blocked | true ↦ save ref st >>= (λ _. m) ])
  again-Safe false st m p = return-Safe k _
  again-Safe true st m p = >>=-Safe k (save ref st) _ (save-Safe k ref st) λ _. p

  write_again-Safe : (st : Stream) (m : M Io) → Safe k m → Safe k (write_again ref st m)
  unfolding write_again
  write_again-Safe st m p = again-Safe st.send_notify _ m p

  write-Safe :
      (b : Bytes) (w : Wait) (wakes : List Wake)
      → IsFair w
      → All IsFairWake wakes
      → Safe k (write ref b w wakes)
  unfolding write
  write-Safe b w [] fair all = write_pass-Safe b w _ fair (return-Safe k blocked)
  write-Safe b w (signal f ∷ more) fair (keep, all) = write_pass-Safe b w _ fair (
      >>=-Safe k (modify f) _ (modify-Safe k f (λ s v h. keep s)) λ _.
        >>=-Safe k (load ref) _ (load-Safe k ref lt)
          λ st. write_again-Safe st _ (write-Safe b w more fair all))
  write-Safe b w (timer f ∷ more) fair (keep, all) = write_pass-Safe b w _ fair (
      >>=-Safe k (modify f) _ (modify-Safe k f (λ s v h. keep s))
        λ _. >>=-Safe k (load ref) _ (load-Safe k ref lt) λ st. timed_out-Safe st.write_deadline)

  next_chunk-Safe :
      (total : ℕ) (r : Io) (m : ℕ → M Io) → ((n : ℕ) → Safe k (m n)) → Safe k (next_chunk total r m)
  unfolding next_chunk
  next_chunk-Safe total blocked m p = return-Safe k _
  next_chunk-Safe total spent m p = return-Safe k _
  next_chunk-Safe total (done n (some e)) m p = return-Safe k _
  next_chunk-Safe total (done n none) m p = p n

  write_loop-Safe :
      (fuel : ℕ) (b : Bytes) (turns : ℕ → Wait × List Wake) (total : ℕ)
      → AreFair turns
      → Safe k (write_loop fuel ref b turns total)
  unfolding write_loop
  write_loop-Safe zero [] turns total fair = return-Safe k _
  write_loop-Safe (suc fuel) [] turns total fair = return-Safe k _
  write_loop-Safe zero (x ∷ b) turns total fair = return-Safe k _
  write_loop-Safe (suc fuel) (x ∷ b) turns total fair =
      >>=-Safe k (write ref (x ∷ b) (turns fuel).0 (turns fuel).1) _
        (write-Safe (x ∷ b) (turns fuel).0 (turns fuel).1 (fair fuel).0 (fair fuel).1)
        λ r.
          next_chunk-Safe total r _
            λ n. write_loop-Safe fuel (drop n (x ∷ b)) turns (total + n) fair

-- A Write on a stream that exists comes to an end or waits for a window that nobody opens, as long
-- as the other goroutines keep the invariant of the session: it does not panic, and its loop does
-- not go on for longer than there are bytes. If it returns with no error it counts all the bytes
-- it was given, and with an error no more than these. The invariant of the session is kept.
pub write_all-ends :
    (ref : ℕ) (b : Bytes) (turns : ℕ → Wait × List Wake) (s : Session)
    → AreFair turns
    → Inv s
    → ref < length s.store
    → (r : Io) × (t : Session) × (write_all ref b turns s ≡ some (r, t))
      × IsCount 0 (length b) r
      × Inv t
unfolding write_all
write_all-ends ref b turns s fair v lt =
    let (r, t, e, keep) =
      write_loop-Safe (length s.store) ref lt (length b) b turns 0 fair s v (omega arith) in
    (r, t, e, write_all-IsCount ref b turns s t r e, keep.still v)
