-- ===== src/Websocket/Codec.antt =====
-- websocket.go: Codec, which sends and receives a value as one frame, and Message.
pub mod Messages
pub mod Total
use n6bagent.Prelude.{ℕ, zero, suc, ◌-◌, Option, none, some, length, take, drop, leb, if◌then◌else◌}
use n6bagent.Websocket.Base.{Error, not_supported, text_frame, binary_frame}
use n6bagent.Websocket.Frame.{Bytes, Encoded, encoded, refused}
use n6bagent.Websocket.Conn.{FrameReader, Conn, Out, write_frame, unmask, advance}
use n6bagent.Websocket.Conn.Handler.{Handled, to_read, skipped, stopped, next_frame, is_eof}

-- Go's results with an error.
pub data Marshalled : Type 0 where
  marshalled : Bytes → ℕ → Marshalled
  marshal_fails : Error → Marshalled

pub data Received {ℓ} (V : Type ℓ) : Type ℓ where
  received : V → Received V
  receive_fails : Error → Received V

-- Codec, for values to send and values to receive.
pub record Codec {ℓ κ} (V : Type ℓ) (W : Type κ) : Type (ℓ ⊔ κ) where
  pub marshal : V → Marshalled
  pub unmarshal : Bytes → ℕ → Received W

abbrev pub send_marshalled : Marshalled → Out → Conn → Conn × Option Error
send_marshalled (marshal_fails e) out c = (c, some e)
send_marshalled (marshalled data_out payload_type) out c =
    let (c', r) = write_frame payload_type data_out out c in (c', r.1)

-- What a read of a whole frame gives: its bytes, the error if it is not io.EOF, and the connection.
-- A connection that ends by io.EOF ends the frame with no error.
unfoldable pub read_all : FrameReader → Conn → (Bytes × Option Error) × Conn
read_all f c =
    let bs = unmask f.header.masking_key f.pos (take f.remaining c.input) in
    let failure =
      if leb f.remaining (length c.input)
      then none
      else if is_eof c.input_end
      then none
      else some c.input_end in
    ((bs, failure), record c { input = drop f.remaining c.input })

-- The frame at hand is read to its end and forgotten; after an error it stays.
abbrev pub forget_frame : FrameReader → (Bytes × Option Error) × Conn → Conn × Option Error
forget_frame f ((bs, none), c) = (record c { frame = none }, none)
forget_frame f ((bs, some e), c) = (
  record c {
    frame = some (record f {
      remaining = f.remaining - length bs;
      pos = advance f.header.masking_key f.pos (length bs);
    });
  },
  some e,
)

unfoldable pub discard_frame : Option FrameReader → Conn → Conn × Option Error
unfolding read_all
discard_frame none c = (c, none)
discard_frame (some f) c = forget_frame f (read_all f c)

module _ {ℓ κ} {V : Type ℓ} {W : Type κ} (cd : Codec V W) where
  -- Send.
  unfoldable pub send : V → Out → Conn → Conn × Option Error
  unfolding write_frame
  send v out c = send_marshalled (cd.marshal v) out c

  abbrev pub unmarshalled : ℕ → (Bytes × Option Error) × Conn → Conn × Option (Received W)
  unmarshalled payload_type ((bs, some e), c) = (c, some (receive_fails e))
  unmarshalled payload_type ((bs, none), c) = (c, some (cd.unmarshal bs payload_type))

  abbrev pub on_frame :
      Conn × Handled → (Conn → Conn × Option (Received W)) → Conn × Option (Received W)
  on_frame (c, stopped e) again = (c, some (receive_fails e))
  on_frame (c, skipped) again = again c
  on_frame (c, to_read f) again = unmarshalled f.header.op_code (read_all f c)

  -- From `again:` on, with fuel for the rounds and what is written by each of them. `none` is no
  -- answer of the program, but fuel that ran out.
  unfoldable pub receive_loop : ℕ → (ℕ → Out) → Conn → Conn × Option (Received W)
  unfolding next_frame read_all
  receive_loop zero outs c = (c, none)
  receive_loop (suc fuel) outs c = on_frame (next_frame (outs fuel) c) (receive_loop fuel outs)

  abbrev pub after_discard : ℕ → (ℕ → Out) → Conn × Option Error → Conn × Option (Received W)
  after_discard fuel outs (c, some e) = (c, some (receive_fails e))
  after_discard fuel outs (c, none) = receive_loop fuel outs c

  -- Receive.
  unfoldable pub receive : ℕ → (ℕ → Out) → Conn → Conn × Option (Received W)
  unfolding discard_frame receive_loop
  receive fuel outs c = after_discard fuel outs (discard_frame c.frame c)

-- The values that Message sends: a string, a []byte, or another; and the kinds of variables that it
-- receives into.
pub data Sendable : Type 0 where
  a_string a_slice : Bytes → Sendable
  another : Sendable

pub data Target : Type 0 where
  into_string into_slice into_another : Target

unfoldable pub marshal_message : Sendable → Marshalled
marshal_message (a_string bs) = marshalled bs text_frame
marshal_message (a_slice bs) = marshalled bs binary_frame
marshal_message another = marshal_fails not_supported

unfoldable pub unmarshal_message : Target → Bytes → ℕ → Received Sendable
unmarshal_message into_string msg payload_type = received (a_string msg)
unmarshal_message into_slice msg payload_type = received (a_slice msg)
unmarshal_message into_another msg payload_type = receive_fails not_supported

-- Message, with the kind of the variable that is received into.
unfoldable pub message_codec : Target → Codec Sendable Sendable
unfolding marshal_message unmarshal_message
message_codec t = record { marshal = marshal_message; unmarshal = unmarshal_message t }

-- What is used of encoding/json.
pub record Json {ℓ κ} (V : Type ℓ) (W : Type κ) : Type (ℓ ⊔ κ) where
  pub encode : V → Encoded
  pub decode : Bytes → Received W

abbrev pub as_text : Encoded → Marshalled
as_text (encoded bs) = marshalled bs text_frame
as_text (refused e) = marshal_fails e

-- JSON.
unfoldable pub json_codec {ℓ κ} : {V : Type ℓ} {W : Type κ} → Json V W → Codec V W
json_codec j = record {
  marshal = λ v. as_text (j.encode v);
  unmarshal = λ msg payload_type. j.decode msg;
}
