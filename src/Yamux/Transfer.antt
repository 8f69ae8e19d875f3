-- ===== src/Yamux/Transfer.antt =====
-- Bytes from a Write at one end to the buffer of a stream at the other.
pub mod Reading
use n6bagent.Prelude.{
  ℕ, ◌-◌, ◌≤◌, ◌<◌, ◌^◌, ◌≡◌, true, none, some, List, [], ◌∷◌, ◌++◌, length, All, arith, get_elem?,
  get_elem?-set, append_assoc, ap,
}
use n6bagent.Prelude.Assoc.{lookup}
use n6bagent.Yamux.Const.{type_data, header_size}
use n6bagent.Yamux.Header.{Bytes, encode}
use n6bagent.Yamux.Header.RoundTrip.{encode-IsByte}
use n6bagent.Yamux.State.{SendReady, Session, Stream, established, Wait, quiet}
use n6bagent.Yamux.Stream.Windows.{with_stream, queued}
use n6bagent.Yamux.Recv.{recv_round}
use n6bagent.Yamux.Recv.Rounds.{recv_round_data}
use n6bagent.Yamux.Io.{done, write_all}
use n6bagent.Yamux.Io.Quiet.{write_all_one}
use n6bagent.Yamux.Send.{ConnWrite, answers, send_round}
use n6bagent.Yamux.Send.Wire.{Works, send_round_whole}

-- What an undisturbed Write of `b` needs of the sender's stream: it is established, `b` is not
-- empty and fits the window, and nothing else is queued.
pub record CanSend (s : Session) (ref : ℕ) (st : Stream) (b : Bytes) : Type 0 where
  pub here : get_elem? s.store ref ≡ some st
  pub live : st.state ≡ established
  pub idle : s.send_ch ≡ []
  pub some_bytes : 0 < length b
  pub room : length b ≤ st.send_window
  pub fits : st.send_window < 2 ^ 32
  pub id_fits : st.id < 2 ^ 32

-- What the receiver needs: its end of the stream is in the map, and `b` fits its window.
pub record CanTake (t : Session) (ref id : ℕ) (st : Stream) (b : Bytes) : Type 0 where
  pub mapped : lookup id t.streams ≡ some ref
  pub here : get_elem? t.store ref ≡ some st
  pub room : length b ≤ st.recv_window
  pub fits : st.recv_window < 2 ^ 32

-- An undisturbed Write of `b` that the sender's stream has room for, a round of send on a connection
-- that has no output yet, splits the header in any way and does not fail, and a round of recv at the
-- other end, whose stream has room too and whose input is what the first end put out and whatever
-- follows: Write reports all bytes, send answers with no error, and recv appends exactly `b` to the
-- receiver's buffer and leaves what follows. Both windows shrink by the length of `b`.
pub transfer :
    (s : Session) (ref : ℕ) (st : Stream) (b : Bytes) (t : Session) (ref' : ℕ) (st' : Stream)
    (rest : Bytes) (ws : List ConnWrite) (c : ConnWrite) (w v : Wait)
    → CanSend s ref st b
    → CanTake t ref' st.id st' b
    → All Works ws
    → header_size ≤ length ws
    → c.failure ≡ none
    → s.output ≡ []
    → (s1 s2 : Session) × (write_all ref b (λ i. (quiet, [])) s ≡ some (done (length b) none, s1))
      × (send_round true ws c s1 ≡ some (answers none, s2))
      × (get_elem? s2.store ref ≡ some (record st { send_window = st.send_window - length b }))
      × (recv_round w v (record t { input = s2.output ++ rest })
          ≡ some (
            none,
            with_stream ref'
                (record st' {
                  recv_buf = st'.recv_buf ++ b;
                  recv_window = st'.recv_window - length b;
                  recv_notify = true;
                })
                (record t { input = rest }),
          ))
transfer s ref st b t ref' st' rest ws c w v from to all enough ok clean =
    let hdr : Bytes = encode type_data 0 st.id (length b) in
    let s1 : Session =
      with_stream ref (record st { send_window = st.send_window - length b })
        (queued hdr (some b) s) in
    let s2 : Session = record s1 { send_ch = []; output = s.output ++ (hdr ++ b) } in
    (
      s1,
      s2,
      write_all_one ref s st b from.here from.live from.some_bytes from.room from.fits,
      send_round_whole ws c s1 (record { hdr = hdr; body = some b; replies = true }) []
          (ap
            (λ (q : List SendReady). q ++ record { hdr = hdr; body = some b; replies = true } ∷ [])
            from.idle)
          all (omega (arith, (encode-IsByte type_data 0 st.id (length b) (omega arith)).0, enough))
          ok,
      get_elem?-set s.store ref _ st from.here,
      recv_round_data st.id ref' b rest w v (record t { input = s2.output ++ rest }) st'
          (rw clean (append_assoc hdr b rest)) to.mapped to.here from.id_fits from.some_bytes
          to.room to.fits,
    )
