-- ===== src/Yamux/Io/Writing.antt =====
-- What Write returns, whatever the other goroutines do meanwhile.
use n6bagent.Prelude.{
  ℕ, zero, suc, ◌+◌, ◌-◌, ◌≤◌, ◌<◌, ◌≡◌, false, Option, none, some, List, [], ◌∷◌, length,
  length-drop, drop, arith, inl, inr, Option-cases, Bool-cases, ◌==◌,
}
use n6bagent.Yamux.Const.{Error, min}
use n6bagent.Yamux.Header.{Bytes}
use n6bagent.Yamux.State.{Session, Stream, Wait, M, ◌>>=◌, load, save, modify, wait_for_send_err}
use n6bagent.Yamux.Stream.{send_flags}
use n6bagent.Yamux.Io.{
  Io, done, blocked, spent, Wake, signal, timer, sent, send_chunk, write_pass, write, write_loop,
  write_all, timed_out, refusal, write_again, next_chunk,
}

-- What a call of `write` with `n` bytes may return: a count of 0 with an error, or with none a
-- count of 1 to `n`.
abbrev pub IsShort : ℕ → Io → Type 0
IsShort n (done k none) = (0 < k) × (k ≤ n)
IsShort n (done k (some e)) = k ≡ 0
IsShort n blocked = Unit {0}
IsShort n spent = ⊥

-- All results of a method have a property.
abbrev pub Returns : (Io → Type 0) → M Io → Type 0
Returns P m = (s t : Session) (r : Io) → m s ≡ some (r, t) → P r

sent-IsShort : (ref k n : ℕ) (e : Option Error) → 0 < k → k ≤ n → Returns (IsShort n) (sent ref k e)
unfolding sent
sent-IsShort ref k n (some x) pos le s t r h = ground arith
sent-IsShort ref k n none pos le s t r h = ground arith

bind-Returns :
    {A : Type 0} (P : Io → Type 0) (m : M A) (f : A → M Io)
    → ((a : A) → Returns P (f a))
    → Returns P (m >>= f)
bind-Returns P m f p s t r h = elim (Option-cases (m s)) [
  | inl e ↦ cc
  | inr ((a, u), e) ↦ p a u t r (rw (e, ◌>>=◌) at h)
]

send_chunk-IsShort :
    (ref : ℕ) (st : Stream) (b : Bytes) (w : Wait)
    → 0 < st.send_window
    → 0 < length b
    → Returns (IsShort (length b)) (send_chunk ref st b w)
unfolding send_chunk
send_chunk-IsShort ref st b w room more = bind-Returns _ (send_flags ref) _ λ fl.
    bind-Returns _ (wait_for_send_err _ _ w) _ λ e.
      sent-IsShort ref (min st.send_window (length b)) (length b) e (ground arith) (ground arith)

write_pass-IsShort :
    (ref : ℕ) (b : Bytes) (w : Wait) (wait : M Io)
    → 0 < length b
    → Returns (IsShort (length b)) wait
    → Returns (IsShort (length b)) (write_pass ref b w wait)
unfolding write_pass
write_pass-IsShort ref b w wait more p = bind-Returns _ (load ref) _ λ st s t r h.
    elim (Option-cases (refusal st.state)) [
      | inr (e, no_write) ↦ ground arith
      | inl may ↦ elim (Bool-cases (st.send_window == 0)) [
        | inl full ↦ p s t r (rw (may, full) at h)
        | inr room ↦ send_chunk-IsShort ref st b w (ground arith) more s t r (rw (may, room) at h)
      ]
    ]

timed_out-IsShort : (n : ℕ) (deadline : Option ℕ) → Returns (IsShort n) (timed_out deadline)
unfolding timed_out
timed_out-IsShort n none s t r h = ground arith
timed_out-IsShort n (some d) s t r h = ground arith

write_again-IsShort :
    (ref n : ℕ) (st : Stream) (again : M Io)
    → Returns (IsShort n) again
    → Returns (IsShort n) (write_again ref st again)
unfolding write_again
write_again-IsShort ref n st again p s t r h = elim (Bool-cases st.send_notify) [
  | inr still ↦ ground arith
  | inl woken ↦
      bind-Returns (IsShort n) (save ref (record st { send_notify = false })) (λ _. again) (λ _. p)
        s t r (rw woken at h)
]

write-IsShort :
    (ref : ℕ) (b : Bytes) (w : Wait) (wakes : List Wake)
    → 0 < length b
    → Returns (IsShort (length b)) (write ref b w wakes)
unfolding write
write-IsShort ref b w [] more = write_pass-IsShort ref b w _ more (λ s t r h. ground arith)
write-IsShort ref b w (signal f ∷ wakes) more = write_pass-IsShort ref b w _ more (
    bind-Returns _ (modify f) _ λ _.
      bind-Returns _ (load ref) _
        λ st. write_again-IsShort ref (length b) st _ (write-IsShort ref b w wakes more))
write-IsShort ref b w (timer f ∷ wakes) more = write_pass-IsShort ref b w _ more (
    bind-Returns _ (modify f) _
      λ _. bind-Returns _ (load ref) _ λ st. timed_out-IsShort (length b) st.write_deadline)

-- What Write may return after `total` bytes with `n` more to write: all of them are counted if
-- there is no error, and with an error no more than these.
abbrev pub IsCount : ℕ → ℕ → Io → Type 0
IsCount total n (done k none) = k ≡ total + n
IsCount total n (done k (some e)) = (total ≤ k) × (k ≤ total + n)
IsCount total n blocked = Unit {0}
IsCount total n spent = ⊥

-- A count that follows on `k` bytes more.
IsCount-shift : (total k m n : ℕ) (r : Io) → k + m ≡ n → IsCount (total + k) m r → IsCount total n r
IsCount-shift total k m n (done j none) e h = omega arith
IsCount-shift total k m n (done j (some x)) e h = omega arith
IsCount-shift total k m n blocked e h = tt
IsCount-shift total k m n spent e h = h

next_chunk-IsCount :
    (total n : ℕ) (q : Io) (more : ℕ → M Io)
    → IsShort n q
    → ((k : ℕ) → 0 < k → k ≤ n → Returns (IsCount (total + k) (n - k)) (more k))
    → Returns (IsCount total n) (next_chunk total q more)
unfolding next_chunk
next_chunk-IsCount total n blocked more short p s t r h = ground arith
next_chunk-IsCount total n spent more short p s t r h = absurd short
next_chunk-IsCount total n (done k (some e)) more short p s t r h = ground arith
next_chunk-IsCount total n (done k none) more short p s t r h =
    IsCount-shift total k (n - k) n r (omega arith) (p k short.0 short.1 s t r h)

write_loop-IsCount :
    (fuel ref : ℕ) (b : Bytes) (turns : ℕ → Wait × List Wake) (total : ℕ)
    → length b ≤ fuel
    → (s t : Session) (r : Io) → write_loop fuel ref b turns total s ≡ some (r, t)
    → IsCount total (length b) r
unfolding write_loop
write_loop-IsCount fuel ref [] turns total le s t r h = ground arith
write_loop-IsCount zero ref (x ∷ b) turns total le s t r h = absurd (omega arith)
write_loop-IsCount (suc fuel) ref (x ∷ b) turns total le s t r h =
    elim (Option-cases (write ref (x ∷ b) (turns fuel).0 (turns fuel).1 s)) [
      | inl e ↦ absurd (cc (rw (e, ◌>>=◌) at h))
      | inr ((q, u), e) ↦
          next_chunk-IsCount total (length (x ∷ b)) q _
            (write-IsShort ref (x ∷ b) (turns fuel).0 (turns fuel).1 (omega arith) s u q e)
            (λ k pos small s' t' r' h'. rw (length-drop k (x ∷ b)) at (
              write_loop-IsCount fuel ref (drop k (x ∷ b)) turns (total + k)
                (omega (arith, length-drop k (x ∷ b))) s' t' r' h'))
            u t r (rw (e, ◌>>=◌) at h)
    ]

-- However the window and the other goroutines behave, a Write that returns with no error counts
-- all the bytes it was given, one that returns an error counts no more than these, and its loop
-- does not go on for longer than there are bytes.
pub write_all-IsCount :
    (ref : ℕ) (b : Bytes) (turns : ℕ → Wait × List Wake) (s t : Session) (r : Io)
    → write_all ref b turns s ≡ some (r, t)
    → IsCount 0 (length b) r
unfolding write_all
write_all-IsCount ref b turns s t r h =
    write_loop-IsCount (length b) ref b turns 0 (omega arith) s t r h
