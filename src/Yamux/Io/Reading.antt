-- ===== src/Yamux/Io/Reading.antt =====
-- What Read gives, and what it tells the peer.
use n6bagent.Prelude.{
  ℕ, ◌+◌, ◌-◌, ◌/◌, ◌^◌, ◌≤◌, ◌<◌, ◌≡◌, refl, true, none, some, [], length, length-drop, drop, take,
  arith, get_elem?, get_elem?-set, set-set,
}
use n6bagent.Yamux.Const.{type_window_update}
use n6bagent.Yamux.Header.{encode}
use n6bagent.Yamux.State.{Session, Stream, established, quiet, wait_for_send_err}
use n6bagent.Yamux.Stream.{flags_for, send_window_update}
use n6bagent.Yamux.Stream.Windows.{with_stream, queued}
use n6bagent.Yamux.Io.{read, read_pass}

-- A Read of `n` bytes on an established stream with data gives the first `n` bytes of the buffer
-- and keeps the others. If at least half of the window is used up it opens the whole window again,
-- though the bytes that stay in the buffer are still there: the bytes that the session holds
-- for the stream and those that the peer may still send are then more than the configured maximum.
pub read-overcommits :
    (ref n : ℕ) (s : Session) (st : Stream)
    → get_elem? s.store ref ≡ some st
    → st.state ≡ established
    → n < length st.recv_buf
    → st.recv_window + s.config.max_stream_window_size / 2 ≤ s.config.max_stream_window_size
    → s.config.max_stream_window_size < 2 ^ 32
    → (u : Session) × (v : Stream) × (read ref n quiet [] s
        ≡ some (some (take n st.recv_buf, none), u))
      × (get_elem? u.store ref ≡ some v)
      × (v.recv_buf ≡ drop n st.recv_buf)
      × (v.recv_window ≡ s.config.max_stream_window_size)
      × (s.config.max_stream_window_size < v.recv_window + length v.recv_buf)
unfolding read read_pass send_window_update wait_for_send_err flags_for
read-overcommits ref n s st here live less used fits =
    let taken : Stream = record st { recv_buf = drop n st.recv_buf } in
    let full : Stream = record taken { recv_window = s.config.max_stream_window_size } in
    let v : Stream = record full { recv_notify = true } in
    (
      with_stream ref v (
          queued
            (encode type_window_update 0 st.id (s.config.max_stream_window_size - st.recv_window))
            none s),
      v,
      ground (
        arith,
        here,
        get_elem?-set s.store ref taken st here,
        get_elem?-set s.store ref full st here,
        set-set s.store ref taken taken,
        set-set s.store ref taken full,
        set-set s.store ref full v,
      ),
      get_elem?-set s.store ref v st here,
      refl,
      refl,
      omega (arith, length-drop n st.recv_buf),
    )
