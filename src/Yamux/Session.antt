-- ===== src/Yamux/Session.antt =====
-- session.go: the methods that the users of a session call, and the way it ends.
pub mod Opening
pub mod Ending
use n6bagent.Prelude.{
  ℕ, suc, ◌+◌, ◌%◌, ◌^◌, Bool, true, false, Option, none, some, List, [], ◌∷◌, ◌++◌, length,
  get_elem?, set, ltb, leb, ◌==◌, if◌then◌else◌,
}
use n6bagent.Prelude.Assoc.{insert}
use n6bagent.Yamux.Const.{
  Error, session_shutdown, streams_exhausted, remote_go_away, type_ping, type_go_away, flag_syn,
  go_away_normal,
}
use n6bagent.Yamux.Header.{Bytes, encode}
use n6bagent.Yamux.State.{
  Session, Stream, init, Wait, M, ◌>>=◌, ◌>>◌, return, get, modify, wait_for_send_err,
}
use n6bagent.Yamux.Stream.{new_stream, send_window_update, force_close}

-- The `select` on `shutdownCh` with a default.
abbrev pub is_closed : Session → Bool
is_closed s = s.shutdown_ch

-- `&Stream{...}`: a new stream in the store, and its pointer.
abbrev pub alloc : Stream → M ℕ
alloc st s = some (length s.store, record s { store = s.store ++ st ∷ [] })

abbrev max_stream_id : ℕ
max_stream_id = 4294967294

-- Go's pair of a stream, which may be nil, and an error.
abbrev pub StreamResult : Type 0
StreamResult = Option ℕ × Option Error

abbrev register : ℕ → ℕ → M (Unit {0})
register id ref = modify λ s. record s { streams = insert id ref s.streams }

-- The loop around the compare-and-swap goes on until no other goroutine comes in between, so that
-- the load, the test and the swap are one step.
unfoldable pub open_next : ℕ → Wait → M StreamResult
unfolding new_stream send_window_update insert
open_next id w = do
  modify λ s. record s { next_stream_id = (id + 2) % 2 ^ 32 }
  ref ← alloc (new_stream id init)
  register id ref
  e ← send_window_update ref w
  return (some ref, e)

unfoldable pub open_stream : Wait → M StreamResult
unfolding open_next
open_stream w = do
  s ← get
  if is_closed s
      then return (none, some session_shutdown)
      else if s.remote_go_away == 1
      then return (none, some remote_go_away)
      else if leb max_stream_id s.next_stream_id
      then return (none, some streams_exhausted)
      else open_next s.next_stream_id w

-- Which case of the `select` in AcceptStream is taken; a case that is not ready blocks.
pub data AcceptCase : Type 0 where
  a_stream : AcceptCase
  the_shutdown : AcceptCase

pub data Accepted : Type 0 where
  blocked : Accepted
  done : StreamResult → Accepted

take_stream : List ℕ → Wait → M Accepted
unfolding send_window_update
take_stream [] w = return blocked
take_stream (ref ∷ refs) w = do
  modify λ s. record s { accept_ch = refs }
  e ← send_window_update ref w
  return (done (some ref, e))

unfoldable pub accept_stream : AcceptCase → Wait → M Accepted
unfolding take_stream
accept_stream a_stream w = do s ← get; take_stream s.accept_ch w
accept_stream the_shutdown w = do
  s ← get
  if s.shutdown_ch then return (done (none, s.shutdown_err)) else return blocked

-- The loop over the map in Close.
unfoldable pub force_close_all : List (ℕ × ℕ) → List Stream → List Stream
unfolding force_close
force_close_all [] store = store
force_close_all ((id, ref) ∷ m) store =
    force_close_all m
      (elim (get_elem? store ref) [ none ↦ store | some st ↦ set store ref (force_close st) ])

abbrev pub or_shutdown : Option Error → Option Error
or_shutdown none = some session_shutdown
or_shutdown (some e) = some e

unfoldable pub close_session : Session → Session
unfolding force_close_all
close_session s = if s.shutdown then s else record s {
  shutdown = true;
  shutdown_err = or_shutdown s.shutdown_err;
  shutdown_ch = true;
  conn_closed = true;
  store = force_close_all s.streams s.store;
}

abbrev first_error : Option Error → Error → Option Error
first_error none e = some e
first_error (some d) e = some d

unfoldable pub exit_err : Error → Session → Session
unfolding close_session
exit_err e s = close_session (record s { shutdown_err = first_error s.shutdown_err e })

unfoldable pub go_away_header : ℕ → M Bytes
go_away_header reason = do
  modify λ s. record s { local_go_away = 1 }
  return (encode type_go_away 0 0 reason)

unfoldable pub go_away : Wait → M (Option Error)
unfolding go_away_header
go_away w = do hdr ← go_away_header go_away_normal; wait_for_send_err hdr none w

-- The first part of Ping: a channel for the answer, under a new identifier.
unfoldable pub register_ping : M ℕ
register_ping s = some (
  s.ping_id,
  record s {
    ping_id = (s.ping_id + 1) % 2 ^ 32;
    pings = insert s.ping_id s.chan_count s.pings;
    chan_count = s.chan_count + 1;
  },
)

-- Which case of the last `select` in Ping is taken.
pub data PingEnd : Type 0 where
  a_response : PingEnd
  the_shutdown : PingEnd

-- The time that passed is left out: `none` is a response.
abbrev ping_result : PingEnd → Option Error
ping_result a_response = none
ping_result the_shutdown = some session_shutdown

abbrev await_response : PingEnd → Option Error → M (Option Error)
await_response end (some e) = return (some e)
await_response end none = return (ping_result end)

unfoldable pub ping : Wait → PingEnd → M (Option Error)
unfolding register_ping
ping w end = do
  id ← register_ping
  e ← wait_for_send_err (encode type_ping flag_syn 0 id) none w
  await_response end e

-- keepalive: a ping for each time that the interval passes before the shutdown is seen; what a
-- ping returns is dropped.
unfoldable pub keepalive : List (Wait × PingEnd) → M (Unit {0})
unfolding ping
keepalive [] = return tt
keepalive ((w, end) ∷ rest) = do ping w end; keepalive rest
