-- ===== src/Yamux/Io/Passing.antt =====
-- One pass of Write and of Read, with the session that it leaves.
use n6bagent.Prelude.{
  ℕ, ◌-◌, ◌/◌, ◌^◌, ◌<◌, ◌≡◌, true, false, none, some, [], length, drop, take, arith, get_elem?,
  get_elem?-set, set-get_elem?, set-set, ltb,
}
use n6bagent.Yamux.Const.{type_data, type_window_update, min}
use n6bagent.Yamux.Header.{Bytes, encode}
use n6bagent.Yamux.State.{Session, Stream, established, quiet, wait_for_send_err}
use n6bagent.Yamux.Stream.{flags_for, send_flags, send_window_update, sub_uint32, add_uint32}
use n6bagent.Yamux.Stream.Windows.{with_stream, queued}
use n6bagent.Yamux.Io.{done, blocked, write, write_pass, read, read_pass}

module _ (ref : ℕ) (s : Session) (st : Stream) (here : get_elem? s.store ref ≡ some st)
    (live : st.state ≡ established) where
  -- A call of `write` with no window waits.
  pub write_shut : (b : Bytes) → st.send_window ≡ 0 → write ref b quiet [] s ≡ some (blocked, s)
  unfolding write write_pass
  write_shut b shut = ground (arith, here, live, shut)

  -- One with a window puts as many bytes as it has room for in a frame on the queue.
  pub write_open :
      (b : Bytes)
      → 0 < st.send_window
      → st.send_window < 2 ^ 32
      → let n = min st.send_window (length b) in
        write ref b quiet [] s
        ≡ some (
          done n none,
          with_stream ref
              (record st { send_window = st.send_window - n })
              (queued (encode type_data 0 st.id n) (some (take n b)) s),
        )
  unfolding write write_pass send_flags wait_for_send_err
  write_open b room fits = ground (arith, here, live, set-get_elem? s.store ref st here)

  -- Read with nothing in the buffer waits.
  pub read_empty : (n : ℕ) → st.recv_buf ≡ [] → read ref n quiet [] s ≡ some (none, s)
  unfolding read read_pass
  read_empty n e = ground (arith, here, live, e)

  -- What Read leaves of the stream.
  abbrev pub taken : ℕ → Stream
  taken n = record st { recv_buf = drop n st.recv_buf; recv_notify = true }

  abbrev delta : ℕ
  delta = sub_uint32 s.config.max_stream_window_size st.recv_window

  abbrev pub announced : ℕ → Session
  announced n =
      with_stream ref (record (taken n) { recv_window = add_uint32 st.recv_window delta })
        (queued (encode type_window_update 0 st.id delta) none s)

  -- With less than half of the window to announce, Read only takes the bytes.
  pub read_small :
      (n : ℕ)
      → 0 < length st.recv_buf
      → ltb delta (s.config.max_stream_window_size / 2) ≡ true
      → read ref n quiet [] s ≡ some (some (take n st.recv_buf, none), with_stream ref (taken n) s)
  unfolding read read_pass send_window_update flags_for
  read_small n more small =
      let cut : Stream = record st { recv_buf = drop n st.recv_buf } in
      ground (
        arith,
        here,
        live,
        small,
        get_elem?-set s.store ref cut st here,
        set-set s.store ref cut cut,
        set-set s.store ref cut (taken n),
      )

  -- With half of it or more, it queues a window update besides, and opens its window.
  pub read_large :
      (n : ℕ)
      → 0 < length st.recv_buf
      → ltb delta (s.config.max_stream_window_size / 2) ≡ false
      → read ref n quiet [] s ≡ some (some (take n st.recv_buf, none), announced n)
  unfolding read read_pass send_window_update wait_for_send_err flags_for
  read_large n more large =
      let cut : Stream = record st { recv_buf = drop n st.recv_buf } in
      let full : Stream = record cut { recv_window = add_uint32 st.recv_window delta } in
      ground (
        arith,
        here,
        live,
        large,
        get_elem?-set s.store ref cut st here,
        get_elem?-set s.store ref full st here,
        set-set s.store ref cut cut,
        set-set s.store ref cut full,
        set-set s.store ref full (record full { recv_notify = true }),
      )
