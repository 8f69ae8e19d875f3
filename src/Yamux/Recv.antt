-- ===== src/Yamux/Recv.antt =====
-- session.go: the goroutine recv and the handlers of the frames that it reads.
pub mod Incoming
pub mod Rounds
pub mod Updates
pub mod Pings
use n6bagent.Prelude.{
  ℕ, zero, suc, Bool, true, false, ◌&&◌, Option, none, some, List, [], ◌∷◌, ◌++◌, length, take,
  drop, ltb, leb, ◌==◌, to_ℕ, if◌then◌else◌,
}
use n6bagent.Prelude.Assoc.{lookup, insert, delete}
use n6bagent.Yamux.Const.{
  Error, eof, unexpected_eof, invalid_version, invalid_msg_type, duplicate_stream, go_away_protocol,
  go_away_internal, go_away_unexpected, proto_version, type_data, type_window_update, type_ping,
  type_go_away, flag_syn, flag_ack, flag_rst, has_flag, header_size, go_away_normal,
  go_away_proto_err, go_away_internal_err,
}
use n6bagent.Yamux.Header.{Bytes, encode, version, msg_type, flags, stream_id, payload_length}
use n6bagent.Yamux.State.{
  Session, syn_received, Wait, M, ◌>>=◌, ◌>>◌, return, get, modify, send_no_wait,
}
use n6bagent.Yamux.Stream.{new_stream, unless_failed}
use n6bagent.Yamux.Stream.Frames.{incr_send_window, read_data}
use n6bagent.Yamux.Session.{alloc, exit_err, go_away_header}

-- `return s.sendNoWait(s.goAway(...))` with the error of the caller in its place.
abbrev pub refuse : ℕ → Error → Wait → M (Option Error)
refuse reason e w = do hdr ← go_away_header reason; send_no_wait hdr w; return (some e)

-- The `select` on `acceptCh` with a default, behind the registration of the stream.
unfoldable pub offer : ℕ → ℕ → Wait → M (Option Error)
unfolding delete
offer id ref w = do
  s ← get
  if ltb (length s.accept_ch) (to_ℕ s.config.accept_backlog)
      then (do modify λ t. record t { accept_ch = t.accept_ch ++ ref ∷ [] }; return none)
      else do
        modify λ t. record t { streams = delete id t.streams }
        send_no_wait (encode type_window_update flag_rst id 0) w

abbrev pub register_stream : ℕ → Option ℕ → ℕ → Wait → M (Option Error)
register_stream id (some old) ref w = refuse go_away_proto_err duplicate_stream w
register_stream id none ref w = do
  modify λ s. record s { streams = insert id ref s.streams }
  offer id ref w

unfoldable pub incoming_stream : ℕ → Wait → M (Option Error)
unfolding new_stream lookup insert offer go_away_header
incoming_stream id w = do
  s ← get
  if s.local_go_away == 1 then send_no_wait (encode type_window_update flag_rst id 0) w else do
    ref ← alloc (new_stream id syn_received)
    t ← get
    register_stream id (lookup id t.streams) ref w

-- `io.CopyN(ioutil.Discard, s.bufRead, n)`; an error is logged and dropped.
abbrev pub discard : ℕ → M (Option Error)
discard n = do modify λ s. record s { input = drop n s.input }; return none

-- An error of the stream's own method, after which a go away is sent.
abbrev pub or_go_away : Option Error → Wait → M (Option Error)
or_go_away none w = return none
or_go_away (some e) w = refuse go_away_proto_err e w

abbrev pub deliver : Option ℕ → Bytes → Wait → M (Option Error)
deliver none hdr w =
    if msg_type hdr == type_data && ltb 0 (payload_length hdr)
    then discard (payload_length hdr)
    else return none
deliver (some ref) hdr w =
    if msg_type hdr == type_window_update
    then incr_send_window ref hdr (flags hdr) >>= (λ e. or_go_away e w)
    else read_data ref hdr (flags hdr) >>= (λ e. or_go_away e w)

abbrev pub deliver_found : Bytes → Wait → M (Option Error)
deliver_found hdr w = do s ← get; deliver (lookup (stream_id hdr) s.streams) hdr w

-- `w` is the wait of the reply to a new stream and `v` that of a go away behind it.
unfoldable pub handle_stream_message : Bytes → Wait → Wait → M (Option Error)
handle_stream_message hdr w v =
    if has_flag (flags hdr) flag_syn
    then incoming_stream (stream_id hdr) w >>= (λ e. unless_failed e (deliver_found hdr v))
    else deliver_found hdr v

abbrev pub answer_ping : Option ℕ → ℕ → M (Option Error)
answer_ping none id = return none
answer_ping (some ch) id = do
  modify λ s. record s { pings = delete id s.pings; closed_chans = ch ∷ s.closed_chans }
  return none

unfoldable pub handle_ping : Bytes → Wait → M (Option Error)
unfolding lookup delete
handle_ping hdr w =
    if has_flag (flags hdr) flag_syn
    then (do send_no_wait (encode type_ping flag_ack 0 (payload_length hdr)) w; return none)
    else do s ← get; answer_ping (lookup (payload_length hdr) s.pings) (payload_length hdr)

unfoldable pub handle_go_away : Bytes → M (Option Error)
handle_go_away hdr =
    let code = payload_length hdr in
    if code == go_away_normal
    then (do modify λ s. record s { remote_go_away = 1 }; return none)
    else if code == go_away_proto_err
    then return (some go_away_protocol)
    else if code == go_away_internal_err
    then return (some go_away_internal)
    else return (some go_away_unexpected)

-- The `switch` of recv on the type of the frame.
unfoldable pub dispatch : Bytes → Wait → Wait → M (Option Error)
dispatch hdr w v =
    if msg_type hdr == type_data
    then handle_stream_message hdr w v
    else if msg_type hdr == type_window_update
    then handle_stream_message hdr w v
    else if msg_type hdr == type_go_away
    then handle_go_away hdr
    else if msg_type hdr == type_ping
    then handle_ping hdr w
    else return (some invalid_msg_type)

-- `io.ReadFull`: an end before the first byte is the error of the input, a later end of the input
-- is `ErrUnexpectedEOF`.
abbrev pub short_error : Bytes → Error → Error
short_error [] e = e
short_error (b ∷ bs) eof = unexpected_eof
short_error (b ∷ bs) e = e

-- One round of the loop of recv; an error ends the session.
unfoldable pub recv_round : Wait → Wait → M (Option Error)
recv_round w v = do
  s ← get
  modify λ t. record t { input = drop header_size t.input }
  let hdr = take header_size s.input
  if ltb (length s.input) header_size
      then return (some (short_error s.input s.input_end))
      else if version hdr == proto_version
      then dispatch hdr w v
      else return (some invalid_version)

-- The loop, with fuel, and the waits of each round; the result says whether the loop ended.
unfoldable pub recv : ℕ → (ℕ → Wait × Wait) → M Bool
recv zero waits = return false
recv (suc fuel) waits = do
  e ← recv_round (waits fuel).0 (waits fuel).1
  elim e [ some x ↦ (do modify (exit_err x); return true) | none ↦ recv fuel waits ]
