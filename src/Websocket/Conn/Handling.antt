-- ===== src/Websocket/Conn/Handling.antt =====
-- What HandleFrame answers to control frames and to frames with the wrong masking.
use n6bagent.Prelude.{
  ℕ, ◌≤◌, ◌<◌, ◌≡◌, ◌≢◌, Bool, true, false, not, none, some, ◌++◌, length, take, drop, arith,
  if◌then◌else◌,
}
use n6bagent.Websocket.Base.{
  eof, ping_frame, pong_frame, close_frame, text_frame, binary_frame, not_implemented,
  continuation_frame,
}
use n6bagent.Websocket.Frame.{Bytes, masked}
use n6bagent.Websocket.Frame.Header.{wire, encode_frame-wire}
use n6bagent.Websocket.Conn.{
  Conn, FrameReader, Out, data_header, write_close, write_frame, write_pong,
}
use n6bagent.Websocket.Conn.Handler.{
  to_read, skipped, stopped, handle_frame, has_key, by_type, ping_error,
}

-- Whether a frame is masked as its receiver wants it: at a server yes, at a client no.
abbrev pub well_masked : FrameReader → Conn → Bool
well_masked f c =
    if c.is_server then has_key f.header.masking_key else not (has_key f.header.masking_key)

-- The frame that a server writes.
abbrev pub served : ℕ → Bytes → Conn → Conn
served op msg c = record c { output = c.output ++ wire (data_header op none) msg }

write_frame-served :
    (op : ℕ) (msg : Bytes) (out : Out) (c : Conn)
    → c.is_server ≡ true
    → out.flush ≡ none
    → write_frame op msg out c ≡ (served op msg c, (length msg, none))
unfolding write_frame
write_frame-served op msg out c srv ok =
    ground (arith, encode_frame-wire (data_header op none) msg tt)

-- A server refuses a frame with no mask, and a client one with a mask: the connection ends as at
-- its close, after a close frame with the status of a protocol error is written, whatever comes of
-- that write.
pub handle_frame_unmasked :
    (f : FrameReader) (out : Out) (c : Conn)
    → well_masked f c ≡ false
    → handle_frame f out c ≡ ((write_close 1002 out c).0, stopped eof)
unfolding handle_frame
handle_frame_unmasked f out c bad = ground arith

-- A server that gets a masked ping of 1 to 125 bytes, all of them at hand, writes one pong with
-- the same bytes, leaves the input behind the ping, and goes on to the next frame.
pub handle_frame_ping :
    (f : FrameReader) (k : Bytes) (out : Out) (c : Conn)
    → c.is_server ≡ true
    → f.header.op_code ≡ ping_frame
    → f.header.masking_key ≡ some k
    → 0 < f.remaining
    → f.remaining ≤ 125
    → f.remaining ≤ length c.input
    → out.flush ≡ none
    → handle_frame f out c ≡ (
      served pong_frame
          (masked k f.pos (take f.remaining c.input))
          (record c { input = drop f.remaining c.input }),
      skipped,
    )
unfolding handle_frame by_type ping_error write_pong
handle_frame_ping f k out c srv op key some_bytes short whole ok = ground (
  arith,
  write_frame-served pong_frame (masked k f.pos (take f.remaining c.input)) out
      (record c { input = drop f.remaining c.input }),
)

-- What becomes of a frame of each type that is masked as it should be: text and binary frames are
-- read and their type is remembered, a continuation is read under the remembered type, a close
-- frame ends the connection, a pong is an error, and a frame of a type that is not named is read as
-- data. None of these writes anything or takes anything from the input.
pub handle_frame_types :
    (f : FrameReader) (out : Out) (c : Conn)
    → well_masked f c ≡ true
    → f.header.op_code ≢ ping_frame
    → ((f.header.op_code ≡ text_frame
          → handle_frame f out c ≡ (record c { handler_type = text_frame }, to_read f))
        × (f.header.op_code ≡ binary_frame
            → handle_frame f out c ≡ (record c { handler_type = binary_frame }, to_read f))
        × (f.header.op_code ≡ continuation_frame
            → handle_frame f out c
              ≡ (c, to_read (record f { header = record f.header { op_code = c.handler_type } })))
        × (f.header.op_code ≡ close_frame → handle_frame f out c ≡ (c, stopped eof))
        × (f.header.op_code ≡ pong_frame → handle_frame f out c ≡ (c, stopped not_implemented)))
      × ((handle_frame f out c).0.output ≡ c.output)
      × ((handle_frame f out c).0.input ≡ c.input)
unfolding handle_frame by_type
handle_frame_types f out c good no_ping = (
  (λ e. ground arith, λ e. ground arith, λ e. ground arith, λ e. ground arith, λ e. ground arith),
  ground arith,
  ground arith,
)
