-- ===== src/Examples/Frames.antt =====
-- Frames of a websocket connection that are written, read, answered and refused.
use n6bagent.Prelude.{
  ℕ, ◌≡◌, ◌≢◌, inl, refl, true, false, none, some, [], ◌∷◌, ◌++◌, All, arith, take,
}
use n6bagent.Websocket.Base.{eof, text_frame, ping_frame}
use n6bagent.Websocket.Frame.{Bytes, FrameHeader, read_header, read_payload_length, read_key}
use n6bagent.Websocket.Frame.Header.{wire}
use n6bagent.Websocket.Frame.Masking.{IsByte}
use n6bagent.Websocket.Conn.{
  Conn, FrameReader, Out, random_key, bytes, data_header, new_hybi_conn, unmask,
}
use n6bagent.Websocket.Conn.Handler.{next_frame}
use n6bagent.Websocket.Conn.Reading.{Turn, read, read_bytes}
use n6bagent.Websocket.Conn.Delivery.{pending, read-write}
use n6bagent.Websocket.Codec.{
  Codec, Sendable, a_string, into_slice, message_codec, marshal_message, send, receive,
}
use n6bagent.Websocket.Codec.Messages.{receive-send, receive_truncated}
use n6bagent.Websocket.Codec.Total.{receive-total}

abbrev key : Bytes
key = 1 ∷ 2 ∷ 3 ∷ 4 ∷ []

key_bytes : All IsByte key
key_bytes = omega arith

abbrev five : Bytes
five = 104 ∷ 101 ∷ 108 ∷ 108 ∷ 111 ∷ []

five_bytes : All IsByte five
five_bytes = omega arith

abbrev text : FrameHeader
text = data_header text_frame (some key)

abbrev out : Out
out = record { random = random_key key; flush = none }

-- A server whose client wrote five bytes, and what a Read of three meets.
abbrev server : Conn
server = record (new_hybi_conn true [] eof) { input = wire text five ++ [] }

abbrev turns : ℕ → Turn
turns i = record { out = out; gives = 100 }

read-write_example :
    (e : Conn) × (read 1 3 turns server ≡ (e, read_bytes (bytes (104 ∷ 101 ∷ 108 ∷ []))))
    × (pending e e.frame ≡ 108 ∷ 111 ∷ [])
unfolding new_hybi_conn
read-write_example =
    read-write text_frame five key [] 0 3 turns server (inl refl) refl key_bytes five_bytes
      (omega arith) (omega arith) refl refl refl

abbrev client : Conn
client = new_hybi_conn false [] eof

-- A masked ping of two bytes, and one with no mask.
abbrev ping : FrameReader
ping = record {
  header = record (data_header ping_frame (some key)) { length_field = 2 };
  remaining = 2;
  pos = 0;
}

abbrev pinged : Conn
pinged = new_hybi_conn true (6 ∷ 7 ∷ 8 ∷ []) eof

-- The text is sent as a string and received into a slice.
abbrev codec : Codec Sendable Sendable
unfolding message_codec
codec = message_codec into_slice

abbrev outs : ℕ → Out
outs i = out

receive-send_example :
    let d = record (new_hybi_conn true [] eof) {
      input = (send codec (a_string five) out client).0.output ++ 137 ∷ [];
    } in
    ((send codec (a_string five) out client).1 ≡ none)
    × (receive codec 1 outs d ≡ (
      record d { input = 137 ∷ []; handler_type = text_frame },
      some (codec.unmarshal five text_frame),
    ))
unfolding codec message_codec marshal_message new_hybi_conn
receive-send_example =
    receive-send codec (a_string five) text_frame five key (137 ∷ []) out 0 outs client
      (record (new_hybi_conn true [] eof) {
        input = (send codec (a_string five) out client).0.output ++ 137 ∷ [];
      })
      refl (inl refl) refl key_bytes five_bytes (omega arith) refl refl refl refl refl refl

receive-total_example : (receive codec 3 outs (new_hybi_conn true (137 ∷ 0 ∷ []) eof)).1 ≢ none
unfolding new_hybi_conn
receive-total_example =
    receive-total codec 3 outs (new_hybi_conn true (137 ∷ 0 ∷ []) eof) (omega arith)

-- The connection ends behind the first two bytes of the payload.
abbrev cut : Conn
cut = record (new_hybi_conn true [] eof) { input = 129 ∷ 133 ∷ 1 ∷ 2 ∷ 3 ∷ 4 ∷ 105 ∷ 103 ∷ [] }

abbrev cut_reader : FrameReader
cut_reader = record { header = record text { length_field = 5 }; remaining = 5; pos = 0 }

abbrev cut_rest : Conn
cut_rest = record cut { input = 105 ∷ 103 ∷ []; handler_type = text_frame }

receive_truncated_example :
    (receive codec 1 outs cut).1
    ≡ some (codec.unmarshal (unmask (some key) 0 (take 5 cut_rest.input)) text_frame)
unfolding next_frame new_hybi_conn read_header read_payload_length read_key
receive_truncated_example =
    receive_truncated codec 0 outs cut cut_rest cut_reader refl refl (omega arith) refl
