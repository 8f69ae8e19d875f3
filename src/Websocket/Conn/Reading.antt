-- ===== src/Websocket/Conn/Reading.antt =====
-- Conn.Read: the loop over frames.
use n6bagent.Prelude.{ℕ, zero, suc, Option, none, some}
use n6bagent.Websocket.Base.{eof}
use n6bagent.Websocket.Conn.{Conn, FrameReader, Out, Got, bytes, fails, frame_read}
use n6bagent.Websocket.Conn.Handler.{Handled, to_read, skipped, stopped, next_frame}

-- What Read returns; `spent` is no answer of the program, but fuel that ran out.
pub data ReadResult : Type 0 where
  read_bytes : Got → ReadResult
  spent : ReadResult

-- What a round of the loop meets: what a pong is written to, and how much the connection gives.
pub record Turn : Type 0 where
  pub out : Out
  pub gives : ℕ

-- The end of a frame leads back to `again`, any other result to the caller.
unfoldable pub after_read : Conn × Got → (Conn → Conn × ReadResult) → Conn × ReadResult
after_read (c, bytes bs) again = (c, read_bytes (bytes bs))
after_read (c, fails eof) again = again (record c { frame = none })
after_read (c, fails e) again = (c, read_bytes (fails e))

unfoldable pub after_frame : ℕ → ℕ → Conn × Handled → (Conn → Conn × ReadResult) → Conn × ReadResult
unfolding after_read
after_frame n k (c, stopped e) again = (record c { frame = none }, read_bytes (fails e))
after_frame n k (c, skipped) again = again (record c { frame = none })
after_frame n k (c, to_read f) again =
    after_read (frame_read n k f (record c { frame = some f })) again

unfoldable pub read_from :
    ℕ → Turn → Option FrameReader → Conn → (Conn → Conn × ReadResult) → Conn × ReadResult
unfolding after_frame after_read
read_from n turn none c again = after_frame n turn.gives (next_frame turn.out c) again
read_from n turn (some f) c again = after_read (frame_read n turn.gives f c) again

-- Read into `n` bytes, with fuel for the rounds and what each of them meets.
unfoldable pub read : ℕ → ℕ → (ℕ → Turn) → Conn → Conn × ReadResult
read zero n turns c = (c, spent)
read (suc fuel) n turns c = read_from n (turns fuel) c.frame c (read fuel n turns)
