-- ===== src/Yamux/Pipe.antt =====
-- Two sessions with a stream that one end writes and the other reads, as a relation of steps. Each
-- step is a call of a function of the program or the connection that carries bytes.
pub mod Wire
pub mod Fifo
pub mod Flows
pub mod Reads
pub mod Turns
pub mod Rounds
pub mod Delivery
pub mod Progress
pub mod Drain
pub mod Accepting
pub mod Opening
use n6bagent.Prelude.{
  ℕ, ◌+◌, ◌≤◌, ◌<◌, ◌≡◌, Bool, true, false, Option, none, some, List, [], ◌∷◌, ◌++◌, length, take,
  ◌==◌, if◌then◌else◌,
}
use n6bagent.Yamux.Const.{Error, type_data, header_size}
use n6bagent.Yamux.Header.{Bytes, msg_type, payload_length}
use n6bagent.Yamux.State.{Session, Wait, quiet}
use n6bagent.Yamux.Io.{done, write, read}
use n6bagent.Yamux.Send.{ConnWrite, answers, send_round}
use n6bagent.Yamux.Recv.{recv_round}

-- The stream's identifier, and the pointers to it at the two ends.
pub record Ends : Type 0 where
  pub id : ℕ
  pub writing : ℕ
  pub reading : ℕ

pub record Pipe : Type 0 where
  pub writer : Session
  pub reader : Session

-- What the callers of the two ends see of a step.
pub data Event : Type 0 where
  wrote : Bytes → Event
  gave : Bytes → Event
  silent : Event

-- Whether a step is none of the writer's caller.
abbrev pub passive : Event → Bool
passive (wrote b) = false
passive _ = true

-- `io.ReadFull` and `io.CopyN` wait for the bytes of a frame, so a round of recv ends when the
-- input has a whole frame. Only a data frame has a body.
abbrev pub frame_size : Bytes → ℕ
frame_size input =
    let hdr = take header_size input in
    header_size + (if msg_type hdr == type_data then payload_length hdr else 0)

abbrev pub HasFrame : Bytes → Type 0
HasFrame input = frame_size input ≤ length input

-- What one session does by itself: a round of send on its queue, or a round of recv on its input.
pub data Turn (s u : Session) : Type 0 where
  send :
      (ws : List ConnWrite) (c : ConnWrite)
      → send_round true ws c s ≡ some (answers none, u)
      → Turn s u
  recv :
      (w v : Wait) (e : Option Error) → HasFrame s.input → recv_round w v s ≡ some (e, u) → Turn s u

-- The connection takes some bytes of the output of one session to the input of the other.
pub record Carried (s t s' t' : Session) : Type 0 where
  pub moved : Bytes
  pub left : Bytes
  pub some_bytes : 0 < length moved
  pub from : s.output ≡ moved ++ left
  pub sent : s' ≡ record s { output = left }
  pub arrived : t' ≡ record t { input = t.input ++ moved }

-- The calls of Write are its passes over what is left of its bytes; each takes some of them.
pub data Step (k : Ends) (p : Pipe) : Event → Pipe → Type 0 where
  call_write :
      (b : Bytes) (n : ℕ) (s : Session)
      → 0 < length b
      → write k.writing b quiet [] p.writer ≡ some (done n none, s)
      → Step k p (wrote (take n b)) (record p { writer = s })
  call_read :
      (n : ℕ) (bs : Bytes) (s : Session)
      → 0 < n
      → read k.reading n quiet [] p.reader ≡ some (some (bs, none), s)
      → Step k p (gave bs) (record p { reader = s })
  writer_turn : (s : Session) → Turn p.writer s → Step k p silent (record p { writer = s })
  reader_turn : (s : Session) → Turn p.reader s → Step k p silent (record p { reader = s })
  carry :
      (s t : Session)
      → Carried p.writer p.reader s t
      → Step k p silent (record { writer = s; reader = t })
  carry_back :
      (s t : Session)
      → Carried p.reader p.writer t s
      → Step k p silent (record { writer = s; reader = t })

pub data Runs (k : Ends) : Pipe → List Event → Pipe → Type 0 where
  stop : {p : Pipe} → Runs k p [] p
  then :
      {p q r : Pipe} {e : Event} {es : List Event}
      → Step k p e q
      → Runs k q es r
      → Runs k p (e ∷ es) r
