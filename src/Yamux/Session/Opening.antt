-- ===== src/Yamux/Session/Opening.antt =====
-- What OpenStream and AcceptStream do to a session.
use n6bagent.Prelude.{
  ◌+◌, ◌-◌, ◌^◌, ◌≤◌, ◌<◌, ◌≡◌, ◌≢◌, false, none, some, [], ◌∷◌, ◌++◌, length, arith, if◌then◌else◌,
  ◌==◌, get_elem?-append_length, set-append_length,
}
use n6bagent.Prelude.Assoc.{insert}
use n6bagent.Yamux.Const.{
  session_shutdown, remote_go_away, streams_exhausted, type_window_update, flag_syn,
  initial_stream_window,
}
use n6bagent.Yamux.Header.{encode}
use n6bagent.Yamux.State.{Session, Stream, init, syn_sent, Wait, quiet, wait_for_send_err}
use n6bagent.Yamux.Stream.{new_stream, send_window_update, flags_for}
use n6bagent.Yamux.Stream.Windows.{queued}
use n6bagent.Yamux.Session.{open_stream}

-- A session that may open streams.
pub record IsOpen (s : Session) : Type 0 where
  pub running : s.shutdown_ch ≡ false
  pub welcome : s.remote_go_away ≢ 1
  pub more_ids : s.next_stream_id < 4294967294

-- The session behind an OpenStream that nothing disturbs.
abbrev pub opened : Session → Session
opened s =
    let st : Stream = record (new_stream s.next_stream_id syn_sent) {
      recv_window = s.config.max_stream_window_size;
    } in
    queued
      (encode type_window_update flag_syn s.next_stream_id
        (s.config.max_stream_window_size - initial_stream_window))
      none
      (record s {
        next_stream_id = s.next_stream_id + 2;
        store = s.store ++ st ∷ [];
        streams = insert s.next_stream_id (length s.store) s.streams;
      })

-- With a configured size of the initial one at least, an open session gives out its next identifier and keeps the one two above it; the new stream
-- stands in the map and in the state that follows a SYN, and the one frame that is queued is a
-- window update with SYN that raises the peer's view of the window to the configured size.
pub open_stream_ok :
    (s : Session)
    → IsOpen s
    → initial_stream_window ≤ s.config.max_stream_window_size
    → s.config.max_stream_window_size < 2 ^ 32
    → open_stream quiet s ≡ some ((some (length s.store), none), opened s)
unfolding open_stream new_stream send_window_update wait_for_send_err flags_for
open_stream_ok s o wide fits = ground (
  arith,
  get_elem?-append_length s.store (new_stream s.next_stream_id init),
  get_elem?-append_length s.store (new_stream s.next_stream_id syn_sent),
  set-append_length s.store (new_stream s.next_stream_id init)
      (new_stream s.next_stream_id syn_sent),
  set-append_length s.store (new_stream s.next_stream_id syn_sent)
      (record (new_stream s.next_stream_id syn_sent) {
        recv_window = s.config.max_stream_window_size;
      }),
)

-- A session that is shut down, that the peer told to go away, or that has no identifier left
-- gives the error of the first of these that holds, and stays as it was.
pub open_stream_refused :
    (s : Session) (w : Wait)
    → ¬ IsOpen s
    → open_stream w s
      ≡ some (
        (
          none,
          some (
              if s.shutdown_ch
              then session_shutdown
              else if s.remote_go_away == 1
              then remote_go_away
              else streams_exhausted),
        ),
        s,
      )
unfolding open_stream
open_stream_refused s w h = ground (arith, shut)
  where
    shut : s.shutdown_ch ≡ false → s.remote_go_away ≢ 1 → 4294967294 ≤ s.next_stream_id
    shut a b = ground (
      arith,
      λ (c : s.next_stream_id < 4294967294). h (record { running = a; welcome = b; more_ids = c }),
    )
