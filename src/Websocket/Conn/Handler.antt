-- ===== src/Websocket/Conn/Handler.antt =====
-- hybi.go: HandleFrame, and what the first part of Read makes of a header.
use n6bagent.Prelude.{
  Bool, true, false, ◌||◌, Option, none, some, [], length, take, drop, leb, ◌==◌, if◌then◌else◌,
  min,
}
use n6bagent.Websocket.Base.{
  Error, eof, not_implemented, continuation_frame, text_frame, binary_frame, close_frame,
  ping_frame, pong_frame, close_status_protocol_error, max_control_frame_payload_length,
}
use n6bagent.Websocket.Frame.{Bytes, FrameHeader, Read, got, failed, read_header}
use n6bagent.Websocket.Conn.{
  FrameReader, Conn, Out, Count, write_close, write_pong, unmask, new_reader,
}

-- HandleFrame gives a frame to read, or none to go on to the next one, or an error.
pub data Handled : Type 0 where
  to_read : FrameReader → Handled
  skipped : Handled
  stopped : Error → Handled

abbrev pub has_key : Option Bytes → Bool
has_key none = false
has_key (some k) = true

abbrev pub is_eof : Error → Bool
is_eof eof = true
is_eof e = false

-- `io.ReadFull` of a frame into the 125 bytes of a ping: its error, if HandleFrame returns it. An
-- end behind the first byte is ErrUnexpectedEOF, which is let pass.
unfoldable pub ping_error : FrameReader → Conn → Option Error
ping_error f c =
    if f.remaining == 0
    then some eof
    else if length c.input == 0
    then some c.input_end
    else if leb (min max_control_frame_payload_length f.remaining) (length c.input)
    then none
    else if is_eof c.input_end
    then none
    else some c.input_end

abbrev answered : Conn × Count → Conn × Handled
answered (c, (n, none)) = (c, skipped)
answered (c, (n, some e)) = (c, stopped e)

abbrev pong : Option Error → FrameReader → Out → Conn → Conn × Handled
pong (some e) f out c = (record c { input = drop f.remaining c.input }, stopped e)
pong none f out c = answered (
    write_pong
      (unmask f.header.masking_key f.pos
        (take (min max_control_frame_payload_length f.remaining) c.input))
      out (record c { input = drop f.remaining c.input }))

-- The `switch` of HandleFrame. Types that it does not name are read as data.
unfoldable pub by_type : FrameReader → Out → Conn → Conn × Handled
unfolding ping_error write_pong
by_type f out c =
    let op = f.header.op_code in
    if op == continuation_frame
    then (c, to_read (record f { header = record f.header { op_code = c.handler_type } }))
    else if op == text_frame || op == binary_frame
    then (record c { handler_type = op }, to_read f)
    else if op == close_frame
    then (c, stopped eof)
    else if op == ping_frame
    then pong (ping_error f c) f out c
    else if op == pong_frame
    then (c, stopped not_implemented)
    else (c, to_read f)

abbrev refuse : Conn × Option Error → Conn × Handled
refuse (c, e) = (c, stopped eof)

-- HandleFrame: a client's frames are masked, and a server's are not.
unfoldable pub handle_frame : FrameReader → Out → Conn → Conn × Handled
unfolding write_close by_type
handle_frame f out c =
    if c.is_server
    then (if has_key f.header.masking_key
        then by_type f out c
        else refuse (write_close close_status_protocol_error out c))
    else if has_key f.header.masking_key
    then refuse (write_close close_status_protocol_error out c)
    else by_type f out c

-- NewFrameReader and HandleFrame: the first part of Read, where there is no frame.
abbrev pub got_header : Read FrameHeader → Out → Conn → Conn × Handled
got_header (failed e) out c = (record c { input = [] }, stopped e)
got_header (got h rest) out c = handle_frame (new_reader h) out (record c { input = rest })

unfoldable pub next_frame : Out → Conn → Conn × Handled
unfolding handle_frame
next_frame out c = got_header (read_header c.input c.input_end) out c
