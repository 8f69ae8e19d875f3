-- ===== src/Yamux/Stream/Frames.antt =====
-- stream.go: what a frame of the peer does to a stream: processFlags, incrSendWindow, readData.
use n6bagent.Prelude.{
  ℕ, Bool, true, false, ◌||◌, Option, none, some, ◌++◌, length, ltb, leb, ◌==◌, if◌then◌else◌, take,
  drop,
}
use n6bagent.Yamux.Const.{
  Error, eof, unexpected_flag, recv_window_exceeded, flag_ack, flag_fin, flag_rst, has_flag,
  async_notify,
}
use n6bagent.Yamux.Header.{Bytes, payload_length}
use n6bagent.Yamux.State.{
  Stream, StreamState, syn_sent, syn_received, established, local_close, remote_close, closed,
  reset, M, ◌>>=◌, ◌>>◌, return, get, modify, load, save,
}
use n6bagent.Yamux.Stream.{notify_waiting, close_stream, unless_failed, sub_uint32, add_uint32}

-- What processFlags does to the stream, whether it calls closeStream, and its error.
pub record Processed : Type 0 where
  pub stream : Stream
  pub removed : Bool
  pub failure : Option Error

abbrev unchanged : Stream → Processed
unchanged st = record { stream = st; removed = false; failure = none }

abbrev moved : Stream → StreamState → Bool → Processed
moved st state gone = record {
  stream = notify_waiting (record st { state = state });
  removed = gone;
  failure = none;
}

abbrev on_ack : StreamState → Stream → Processed
on_ack syn_sent st = record {
  stream = record st { state = established };
  removed = false;
  failure = none;
}
on_ack _ st = unchanged st

abbrev on_fin : StreamState → Stream → Processed
on_fin syn_sent st = moved st remote_close false
on_fin syn_received st = moved st remote_close false
on_fin established st = moved st remote_close false
on_fin local_close st = moved st closed true
on_fin _ st = record { stream = st; removed = false; failure = some unexpected_flag }

unfoldable pub process : ℕ → Stream → Processed
process fl st =
    if has_flag fl flag_ack
    then on_ack st.state st
    else if has_flag fl flag_fin
    then on_fin st.state st
    else if has_flag fl flag_rst
    then moved st reset true
    else unchanged st

unfoldable pub process_flags : ℕ → ℕ → M (Option Error)
unfolding process close_stream
process_flags ref fl = do
  st ← load ref
  let p = process fl st
  save ref p.stream
  if p.removed then close_stream st.id else return tt
  return p.failure

-- incrSendWindow behind the flags.
unfoldable pub grow_send_window : ℕ → ℕ → M (Option Error)
grow_send_window ref n = do
  st ← load ref
  save ref (record st {
    send_window = add_uint32 st.send_window n;
    send_notify = async_notify st.send_notify;
  })
  return none

unfoldable pub incr_send_window : ℕ → Bytes → ℕ → M (Option Error)
incr_send_window ref hdr fl = do
  e ← process_flags ref fl
  unless_failed e (grow_send_window ref (payload_length hdr))

abbrev pub is_eof : Error → Bool
is_eof eof = true
is_eof _ = false

-- `io.Copy` from a reader limited to `n` bytes takes an end of the input for the end of the copy;
-- only another error is returned, and what was copied before it stays in the buffer.
abbrev pub copy_error : ℕ → Bytes → Error → Option Error
copy_error n input input_end =
    if leb n (length input) || is_eof input_end then none else some input_end

unfoldable pub copy_payload : ℕ → ℕ → M (Option Error)
copy_payload ref n = do
  s ← get
  st ← load ref
  save ref (record st { recv_buf = st.recv_buf ++ take n s.input })
  modify λ t. record t { input = drop n t.input }
  return (copy_error n s.input s.input_end)

-- The last part of readData, after the copy.
unfoldable pub shrink_recv_window : ℕ → ℕ → Option Error → M (Option Error)
shrink_recv_window ref n (some e) = return (some e)
shrink_recv_window ref n none = do
  st ← load ref
  save ref (record st {
    recv_window = sub_uint32 st.recv_window n;
    recv_notify = async_notify st.recv_notify;
  })
  return none

-- readData behind the flags.
unfoldable pub accept_payload : ℕ → ℕ → M (Option Error)
unfolding copy_payload shrink_recv_window
accept_payload ref n = do
  st ← load ref
  if n == 0
      then return none
      else if ltb st.recv_window n
      then return (some recv_window_exceeded)
      else copy_payload ref n >>= shrink_recv_window ref n

unfoldable pub read_data : ℕ → Bytes → ℕ → M (Option Error)
read_data ref hdr fl = do
  e ← process_flags ref fl
  unless_failed e (accept_payload ref (payload_length hdr))
