-- ===== src/Yamux/Stream.antt =====
-- stream.go: the state of a stream, window updates, Close and the deadlines.
pub mod Frames
pub mod Flags
pub mod Windows
pub mod Lifecycle
use n6bagent.Prelude.{
  ℕ, ◌+◌, ◌-◌, ◌/◌, ◌%◌, ◌^◌, Bool, true, false, ◌&&◌, ◌||◌, Option, none, some, [], ◌++◌, length,
  ltb, leb, ◌==◌, if◌then◌else◌, take, drop, bit_or,
}
use n6bagent.Prelude.Assoc.{delete}
use n6bagent.Yamux.Const.{
  Error, eof, unexpected_flag, recv_window_exceeded, type_window_update, flag_syn, flag_ack,
  flag_fin, flag_rst, has_flag, initial_stream_window, async_notify,
}
use n6bagent.Yamux.Header.{Bytes, encode, payload_length}
use n6bagent.Yamux.State.{
  Session, Stream, StreamState, init, syn_sent, syn_received, established, local_close,
  remote_close, closed, reset, Wait, M, ◌>>=◌, ◌>>◌, return, panic, get, modify, load, save,
  wait_for_send_err,
}

unfoldable pub new_stream : ℕ → StreamState → Stream
new_stream id state = record {
  recv_window = initial_stream_window;
  send_window = initial_stream_window;
  id = id;
  state = state;
  recv_buf = [];
  recv_notify = false;
  send_notify = false;
  read_deadline = none;
  write_deadline = none;
}

-- `atomic.AddUint32(&x, ^uint32(n-1))` and `a - b` on uint32
abbrev pub sub_uint32 : ℕ → ℕ → ℕ
sub_uint32 a b = (a + 2 ^ 32 - b) % 2 ^ 32

abbrev pub add_uint32 : ℕ → ℕ → ℕ
add_uint32 a b = (a + b) % 2 ^ 32

abbrev pub notify_waiting : Stream → Stream
notify_waiting st = record st {
  recv_notify = async_notify st.recv_notify;
  send_notify = async_notify st.send_notify;
}

unfoldable pub flags_for : StreamState → ℕ × StreamState
flags_for init = (flag_syn, syn_sent)
flags_for syn_received = (flag_ack, established)
flags_for st = (0, st)

unfoldable pub send_flags : ℕ → M ℕ
unfolding flags_for
send_flags ref = do
  st ← load ref
  let (fl, state') = flags_for st.state
  save ref (record st { state = state' })
  return fl

-- The last part of sendWindowUpdate, after the wait: others may have changed the window meanwhile,
-- and the difference is added to what it is then.
unfoldable pub grow_recv_window : ℕ → ℕ → Option Error → M (Option Error)
grow_recv_window ref delta (some e) = return (some e)
grow_recv_window ref delta none = do
  st ← load ref
  save ref (record st { recv_window = add_uint32 st.recv_window delta })
  return none

announce_window : ℕ → ℕ → ℕ → ℕ → Wait → M (Option Error)
unfolding grow_recv_window
announce_window ref id fl delta w = do
  e ← wait_for_send_err (encode type_window_update fl id delta) none w
  grow_recv_window ref delta e

unfoldable pub send_window_update : ℕ → Wait → M (Option Error)
unfolding send_flags announce_window
send_window_update ref w = do
  s ← get
  let max = s.config.max_stream_window_size
  st ← load ref
  let delta = sub_uint32 max st.recv_window
  fl ← send_flags ref
  if ltb delta (max / 2) && fl == 0 then return none else announce_window ref st.id fl delta w

unfoldable pub send_close : ℕ → Wait → M (Option Error)
unfolding send_flags
send_close ref w = do
  fl ← send_flags ref
  st ← load ref
  wait_for_send_err (encode type_window_update (bit_or fl flag_fin) st.id 0) none w

-- session.go, closeStream.
unfoldable pub close_stream : ℕ → M (Unit {0})
close_stream id = modify λ s. record s { streams = delete id s.streams }

-- The part of Close behind the label SEND_CLOSE.
abbrev finish_close : ℕ → Wait → M (Option Error)
finish_close ref w = do send_close ref w; st ← load ref; save ref (notify_waiting st); return none

unfoldable pub close_in : StreamState → ℕ → Wait → M (Option Error)
unfolding send_close close_stream
close_in syn_sent ref w = do
  st ← load ref
  save ref (record st { state = local_close })
  finish_close ref w
close_in syn_received ref w = do
  st ← load ref
  save ref (record st { state = local_close })
  finish_close ref w
close_in established ref w = do
  st ← load ref
  save ref (record st { state = local_close })
  finish_close ref w
close_in local_close ref w = return none
close_in remote_close ref w = do
  st ← load ref
  save ref (record st { state = closed })
  close_stream st.id
  finish_close ref w
close_in closed ref w = return none
close_in reset ref w = return none
close_in init ref w = panic

unfoldable pub close : ℕ → Wait → M (Option Error)
unfolding close_in
close ref w = do st ← load ref; close_in st.state ref w

unfoldable pub force_close : Stream → Stream
force_close st = notify_waiting (record st { state = closed })

-- A caller goes on only where there was no error.
abbrev pub unless_failed : Option Error → M (Option Error) → M (Option Error)
unless_failed (some e) k = return (some e)
unless_failed none k = k

unfoldable pub set_read_deadline : ℕ → Option ℕ → M (Option Error)
set_read_deadline ref t = do st ← load ref; save ref (record st { read_deadline = t }); return none

unfoldable pub set_write_deadline : ℕ → Option ℕ → M (Option Error)
set_write_deadline ref t = do
  st ← load ref
  save ref (record st { write_deadline = t })
  return none

unfoldable pub set_deadline : ℕ → Option ℕ → M (Option Error)
unfolding set_read_deadline set_write_deadline
set_deadline ref t = do e ← set_read_deadline ref t; unless_failed e (set_write_deadline ref t)
