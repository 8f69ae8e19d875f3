-- ===== src/Yamux/Stream/Windows.antt =====
-- The flow control of one stream: what window updates and data frames do to its windows.
use n6bagent.Prelude.{
  ℕ, ◌+◌, ◌-◌, ◌/◌, ◌%◌, ◌^◌, ◌≤◌, ◌<◌, ◌≡◌, refl, Bool, true, false, ◌&&◌, Option, none, some, [],
  ◌∷◌, ◌++◌, arith, ltb, ◌==◌, get_elem?, set, get_elem?-set, set-set, take, drop, length,
}
use n6bagent.Yamux.Const.{recv_window_exceeded, type_window_update}
use n6bagent.Yamux.Header.{Bytes, encode}
use n6bagent.Yamux.State.{Session, Stream, Wait, answered, wait_for_send_err}
use n6bagent.Yamux.Stream.{flags_for, send_window_update, sub_uint32}
use n6bagent.Yamux.Stream.Frames.{accept_payload}

abbrev pub with_stream : ℕ → Stream → Session → Session
with_stream ref st s = record s { store = set s.store ref st }

abbrev pub queued : Bytes → Option Bytes → Session → Session
queued hdr body s = record s {
  send_ch = s.send_ch ++ record { hdr = hdr; body = body; replies = true } ∷ [];
}

-- The stream with its flags taken.
abbrev pub flagged : Stream → Stream
flagged st = record st { state = (flags_for st.state).1 }

module _ (ref : ℕ) (s : Session) (st : Stream) (here : get_elem? s.store ref ≡ some st) where
  abbrev delta : ℕ
  delta = sub_uint32 s.config.max_stream_window_size st.recv_window

  abbrev frame : Bytes
  frame = encode type_window_update (flags_for st.state).0 st.id delta

  here_flagged : get_elem? (set s.store ref (flagged st)) ref ≡ some (flagged st)
  here_flagged = get_elem?-set s.store ref (flagged st) st here

  -- An update of less than half of the maximum with no flag to send is left out.
  pub send_window_update_small :
      (w : Wait)
      → ltb delta (s.config.max_stream_window_size / 2) ≡ true
      → (flags_for st.state).0 ≡ 0
      → send_window_update ref w s ≡ some (none, with_stream ref (flagged st) s)
  unfolding send_window_update
  send_window_update_small w small bare = ground (arith, here, here_flagged)

  -- Whether an update is left out.
  abbrev omitted : Bool
  omitted = ltb delta (s.config.max_stream_window_size / 2) && (flags_for st.state).0 == 0

  -- The session when the wait for the sender is over.
  abbrev resumed : Wait → Session
  resumed w = w.after (queued frame none (w.before (with_stream ref (flagged st) s)))

  -- An update that is sent adds its difference to the window that the stream has after the wait.
  pub send_window_update_sent :
      (w : Wait) (st' : Stream)
      → omitted ≡ false
      → w.outcome ≡ answered none
      → get_elem? (resumed w).store ref ≡ some st'
      → send_window_update ref w s
        ≡ some (
          none,
          with_stream ref
              (record st' { recv_window = (st'.recv_window + delta) % 2 ^ 32 })
              (resumed w),
        )
  unfolding send_window_update wait_for_send_err
  send_window_update_sent w st' big ok there = ground (arith, here, here_flagged, there)

  -- While an update that is not left out waits for the sender, and is sent without an error, the peer
  -- may send `k` more bytes. If the window was within the maximum, the window that is then open is
  -- the maximum less those bytes: none is lost or counted twice.
  pub window-send_window_update :
      (w : Wait) (st' : Stream) (k : ℕ)
      → omitted ≡ false
      → w.outcome ≡ answered none
      → get_elem? (resumed w).store ref ≡ some st'
      → st.recv_window ≤ s.config.max_stream_window_size
      → s.config.max_stream_window_size < 2 ^ 32
      → st'.recv_window + k ≡ st.recv_window
      → (u : Session) × (v : Stream) × (send_window_update ref w s ≡ some (none, u))
        × (get_elem? u.store ref ≡ some v)
        × (v.recv_window + k ≡ s.config.max_stream_window_size)
        × (v.recv_buf ≡ st'.recv_buf)
  window-send_window_update w st' k big ok there fits small counted =
      let v : Stream = record st' { recv_window = (st'.recv_window + delta) % 2 ^ 32 } in
      (
        with_stream ref v (resumed w),
        v,
        send_window_update_sent w st' big ok there,
        get_elem?-set (resumed w).store ref v st' there,
        omega arith,
        refl,
      )

  -- A data frame of `n` bytes without flags, within the window and with its bytes at hand, moves
  -- them from the connection to the end of the buffer, shrinks the window by `n` and wakes a reader.
  pub accept_payload_ok :
      (n : ℕ)
      → 0 < n
      → n ≤ st.recv_window
      → st.recv_window < 2 ^ 32
      → n ≤ length s.input
      → accept_payload ref n s
        ≡ some (
          none,
          with_stream ref
              (record st {
                recv_buf = st.recv_buf ++ take n s.input;
                recv_window = st.recv_window - n;
                recv_notify = true;
              })
              (record s { input = drop n s.input }),
        )
  unfolding accept_payload
  accept_payload_ok n pos room fits more =
      let copied : Stream = record st { recv_buf = st.recv_buf ++ take n s.input } in
      ground (
        arith,
        here,
        get_elem?-set s.store ref copied st here,
        set-set s.store ref copied
            (record copied { recv_window = st.recv_window - n; recv_notify = true }),
      )

  -- One that is too long for the window is refused, and changes nothing.
  pub accept_payload_exceeded :
      (n : ℕ) → st.recv_window < n → accept_payload ref n s ≡ some (some recv_window_exceeded, s)
  unfolding accept_payload
  accept_payload_exceeded n big = ground (arith, here)
