-- ===== src/Yamux/Transfer/Reading.antt =====
-- Bytes from a Write at one end to a Read at the other.
use n6bagent.Prelude.{
  ℕ, ◌-◌, ◌≤◌, ◌≡◌, refl, true, none, some, List, [], ◌++◌, length, length-append, All, arith, drop,
  take, get_elem?, get_elem?-set,
}
use n6bagent.Yamux.Const.{header_size}
use n6bagent.Yamux.Header.{Bytes}
use n6bagent.Yamux.State.{Session, Stream, established, Wait, quiet}
use n6bagent.Yamux.Io.{done, write_all, read}
use n6bagent.Yamux.Io.Serving.{read-take}
use n6bagent.Yamux.Recv.{recv_round}
use n6bagent.Yamux.Send.{ConnWrite, answers, send_round}
use n6bagent.Yamux.Send.Wire.{Works}
use n6bagent.Yamux.Stream.Windows.{with_stream}
use n6bagent.Yamux.Transfer.{CanSend, CanTake, transfer}

-- What the receiver's stream is when the bytes have come.
abbrev filled : Stream → Bytes → Stream
filled st b = record st {
  recv_buf = st.recv_buf ++ b;
  recv_window = st.recv_window - length b;
  recv_notify = true;
}

-- An undisturbed Write of `b` that fits both windows, a round of send on a connection that has no
-- output yet, splits the header in any way and does not fail, a round of recv at the other end, and
-- an undisturbed Read of `n` bytes of its stream, which is established: Read gives the first `n` of
-- the bytes that were there before, followed by `b`, with no error, and the others stay.
pub transfer-read :
    (s : Session) (ref : ℕ) (st : Stream) (b : Bytes) (t : Session) (ref' : ℕ) (st' : Stream)
    (rest : Bytes) (ws : List ConnWrite) (c : ConnWrite) (w v : Wait) (n : ℕ)
    → CanSend s ref st b
    → CanTake t ref' st.id st' b
    → All Works ws
    → header_size ≤ length ws
    → c.failure ≡ none
    → s.output ≡ []
    → st'.state ≡ established
    → (s1 s2 t1 t2 : Session) × (out : Stream) × (write_all ref b (λ i. (quiet, [])) s
        ≡ some (done (length b) none, s1))
      × (send_round true ws c s1 ≡ some (answers none, s2))
      × (recv_round w v (record t { input = s2.output ++ rest }) ≡ some (none, t1))
      × (t1.input ≡ rest)
      × (read ref' n quiet [] t1 ≡ some (some (take n (st'.recv_buf ++ b), none), t2))
      × (get_elem? t2.store ref' ≡ some out)
      × (out.recv_buf ≡ drop n (st'.recv_buf ++ b))
transfer-read s ref st b t ref' st' rest ws c w v n from to all enough ok clean live =
    let (s1, s2, written, sent, less, received) =
      transfer s ref st b t ref' st' rest ws c w v from to all enough ok clean in
    let t1 : Session = with_stream ref' (filled st' b) (record t { input = rest }) in
    let (t2, out, gives, there, left) =
      read-take ref' n t1 (filled st' b) (get_elem?-set t.store ref' (filled st' b) st' to.here)
        live (omega (arith, from.some_bytes, length-append st'.recv_buf b)) in
    (s1, s2, t1, t2, out, written, sent, received, refl, gives, there, left)
