-- ===== src/Yamux/Io/Quiet.antt =====
-- Write and Read when nothing disturbs them.
use n6bagent.Prelude.{
  ℕ, zero, suc, ◌+◌, ◌-◌, ◌^◌, ◌≤◌, ◌<◌, ◌≡◌, refl, ◌∙◌, ap, none, some, List, [], ◌∷◌, length,
  drop, take, take-all, drop-all, arith, get_elem?,
}
use n6bagent.Yamux.Const.{type_data, min}
use n6bagent.Yamux.Header.{Bytes, encode}
use n6bagent.Yamux.State.{Session, Stream, established, Wait, quiet, ◌>>=◌}
use n6bagent.Yamux.Stream.Windows.{with_stream, queued}
use n6bagent.Yamux.Io.Passing.{write_open}
use n6bagent.Yamux.Io.{done, Wake, write, write_loop, write_all}

loop_done :
    (fuel ref : ℕ) (b : Bytes) (turns : ℕ → Wait × List Wake) (total : ℕ) (s : Session)
    → b ≡ []
    → write_loop fuel ref b turns total s ≡ some (done total none, s)
unfolding write_loop
loop_done zero ref [] turns total s e = refl
loop_done (suc fuel) ref [] turns total s e = refl
loop_done zero ref (x ∷ b) turns total s e = cc
loop_done (suc fuel) ref (x ∷ b) turns total s e = cc

-- On an established stream whose window has room for all of the bytes, an undisturbed Write puts
-- one data frame with all of them on the queue, takes their number off the window, and returns it.
pub write_all_one :
    (ref : ℕ) (s : Session) (st : Stream) (b : Bytes)
    → get_elem? s.store ref ≡ some st
    → st.state ≡ established
    → 0 < length b
    → length b ≤ st.send_window
    → st.send_window < 2 ^ 32
    → write_all ref b (λ i. (quiet, [])) s
      ≡ some (
        done (length b) none,
        with_stream ref
            (record st { send_window = st.send_window - length b })
            (queued (encode type_data 0 st.id (length b)) (some b) s),
      )
unfolding write_all write_loop
write_all_one ref s st [] here live more room fits = absurd (omega arith)
write_all_one ref s st (x ∷ b) here live more room fits =
    let b' : Bytes = x ∷ b in
    let n : ℕ = min st.send_window (length b') in
    let whole : n ≡ length b' = ground arith in
    let u : ℕ → Bytes → Session = λ m cut.
      with_stream ref (record st { send_window = st.send_window - m })
        (queued (encode type_data 0 st.id m) (some cut) s) in
    let one : write ref b' quiet [] s ≡ some (done (length b') none, u (length b') b') =
      write_open ref s st here live b' (omega arith) fits
      ∙ ap (λ (m : ℕ). some (done m none, u m (take m b'))) whole
      ∙ ap (λ (cut : Bytes). some (done (length b') none, u (length b') cut)) (take-all b') in
    rw (one, ◌>>=◌)
      (loop_done (length b) ref (drop (length b) b) (λ i. (quiet, [])) (0 + suc (length b))
          (u (length b') b') (drop-all b)
        ∙ ap (λ (m : ℕ). some (done m none, u (length b') b')) (omega arith))
