-- ===== src/Websocket/Conn.antt =====
-- websocket.go and hybi.go: a connection, what is written to it, and the reader of a frame.
pub mod Handler
pub mod Reading
pub mod Octets
pub mod Handling
pub mod Delivery
pub mod Total
use n6bagent.Prelude.{
  ℕ, zero, suc, ◌+◌, ◌-◌, ◌*◌, ◌/◌, ◌%◌, ◌^◌, Bool, true, false, not, ◌&&◌, ◌||◌, Option, none,
  some, List, [], ◌∷◌, ◌++◌, length, take, drop, ltb, leb, ◌==◌, if◌then◌else◌, min,
}
use n6bagent.Websocket.Base.{
  Error, eof, unexpected_eof, not_implemented, continuation_frame, text_frame, binary_frame,
  close_frame, ping_frame, pong_frame, close_status_normal, close_status_protocol_error,
  max_control_frame_payload_length,
}
use n6bagent.Websocket.Frame.{
  Bytes, FrameHeader, masked, encode_frame, Encoded, encoded, refused, Read, got, failed,
  read_header,
}

-- hybiFrameReader: the header, what its limited reader has left, and the position of the mask.
pub record FrameReader : Type 0 where
  pub header : FrameHeader
  pub remaining : ℕ
  pub pos : ℕ

-- Conn. The connection below is the bytes that it will deliver, the error behind them, and what it
-- was given. `handler_type` is the payload type that the frame handler remembers; a server's
-- connection is one with a request. The configuration, the request and the locks are left out.
pub record Conn : Type 0 where
  pub is_server : Bool
  pub input : Bytes
  pub input_end : Error
  pub output : Bytes
  pub frame : Option FrameReader
  pub payload_type : ℕ
  pub handler_type : ℕ
  pub default_close_status : ℕ
  pub rwc_closed : Bool

-- newHybiConn.
unfoldable pub new_hybi_conn : Bool → Bytes → Error → Conn
new_hybi_conn is_server input input_end = record {
  is_server = is_server;
  input = input;
  input_end = input_end;
  output = [];
  frame = none;
  payload_type = text_frame;
  handler_type = 0;
  default_close_status = close_status_normal;
  rwc_closed = false;
}

-- What the random numbers give to generateMaskingKey.
pub data Random : Type 0 where
  random_key : Bytes → Random
  no_key : Error → Random

-- What a frame that is written meets: the random numbers, and the flush of the buffer, which may
-- fail after some bytes.
pub record Out : Type 0 where
  pub random : Random
  pub flush : Option (ℕ × Error)

-- Go's pair of a count and an error.
abbrev pub Count : Type 0
Count = ℕ × Option Error

abbrev pub flush_result : ℕ → Option (ℕ × Error) → Count
flush_result n none = (n, none)
flush_result n (some (k, e)) = (n, some e)

abbrev pub flushed : Bytes → Option (ℕ × Error) → Bytes
flushed bs none = bs
flushed bs (some (k, e)) = take k bs

abbrev pub data_header : ℕ → Option Bytes → FrameHeader
data_header op key = record {
  fin = true;
  rsv1 = false;
  rsv2 = false;
  rsv3 = false;
  op_code = op;
  length_field = 0;
  masking_key = key;
}

abbrev pub put_frame : Encoded → ℕ → Out → Conn → Conn × Count
put_frame (refused e) n out c = (c, (0, some e))
put_frame (encoded bs) n out c =
    (record c { output = c.output ++ flushed bs out.flush }, flush_result n out.flush)

abbrev with_random : Random → ℕ → Bytes → Out → Conn → Conn × Count
with_random (no_key e) op msg out c = (c, (0, some e))
with_random (random_key k) op msg out c =
    put_frame (encode_frame (data_header op (some k)) msg) (length msg) out c

-- NewFrameWriter and the Write of its frame: only a client masks.
unfoldable pub write_frame : ℕ → Bytes → Out → Conn → Conn × Count
write_frame op msg out c =
    if c.is_server
    then put_frame (encode_frame (data_header op none) msg) (length msg) out c
    else with_random out.random op msg out c

-- Conn.Write.
unfoldable pub write : Bytes → Out → Conn → Conn × Count
unfolding write_frame
write msg out c = write_frame c.payload_type msg out c

unfoldable pub write_close : ℕ → Out → Conn → Conn × Option Error
unfolding write_frame
write_close status out c =
    let (c', r) = write_frame close_frame (status / 2 ^ 8 % 2 ^ 8 ∷ status % 2 ^ 8 ∷ []) out c in
    (c', r.1)

unfoldable pub write_pong : Bytes → Out → Conn → Conn × Count
unfolding write_frame
write_pong msg out c = write_frame pong_frame msg out c

abbrev close_rwc : Option Error → Option Error → Conn → Conn × Option Error
close_rwc (some e) r c = (c, some e)
close_rwc none r c = (record c { rwc_closed = true }, r)

-- Conn.Close, for the result of closing the connection below.
unfoldable pub close : Out → Option Error → Conn → Conn × Option Error
unfolding write_close
close out r c = let (c', e) = write_close c.default_close_status out c in close_rwc e r c'

abbrev pub unmask : Option Bytes → ℕ → Bytes → Bytes
unmask none pos bs = bs
unmask (some k) pos bs = masked k pos bs

abbrev pub advance : Option Bytes → ℕ → ℕ → ℕ
advance none pos n = pos
advance (some k) pos n = pos + n

-- What a read of a frame, or of a connection, gives.
pub data Got : Type 0 where
  bytes : Bytes → Got
  fails : Error → Got

-- hybiFrameReader.Read into `n` bytes, where the connection gives at most `k` of them at once: the
-- limited reader ends at the end of the frame.
unfoldable pub frame_read : ℕ → ℕ → FrameReader → Conn → Conn × Got
frame_read n k f c =
    let m = min k (min n f.remaining) in
    let data_in = take m c.input in
    if f.remaining == 0 then (c, fails eof) else elim c.input [
      | [] ↦ (c, fails c.input_end)
      | b ∷ bs ↦ (
        record c {
          input = drop m c.input;
          frame = some (record f {
            remaining = f.remaining - length data_in;
            pos = advance f.header.masking_key f.pos (length data_in);
          });
        },
        bytes (unmask f.header.masking_key f.pos data_in),
      )
    ]

-- `io.LimitReader` of an int64: nothing is read for a negative length.
abbrev pub limit : ℕ → ℕ
limit n = if ltb n (2 ^ 63) then n else 0

abbrev pub new_reader : FrameHeader → FrameReader
new_reader h = record { header = h; remaining = limit h.length_field; pos = 0 }
