-- ===== src/Yamux/Send.antt =====
-- session.go: the goroutine send, which writes the queued frames to the connection.
pub mod Wire
pub mod Answered
use n6bagent.Prelude.{
  ℕ, Bool, true, false, Option, none, some, List, [], ◌∷◌, ◌++◌, length, take, drop,
}
use n6bagent.Yamux.Const.{Error}
use n6bagent.Yamux.Header.{Bytes}
use n6bagent.Yamux.State.{SendReady, Session, M, ◌>>=◌, ◌>>◌, return, get, modify}
use n6bagent.Yamux.Session.{exit_err}

-- What one `Write` of the connection does: how many bytes it takes, and its error.
pub record ConnWrite : Type 0 where
  pub taken : ℕ
  pub failure : Option Error

-- How a round of the loop ends. The answer is what asyncSendErr puts on the error channel.
pub data Round : Type 0 where
  idle : Round
  in_write : Round
  answers : Option Error → Round
  stops : Round

abbrev emit : Bytes → M (Unit {0})
emit b = modify λ s. record s { output = s.output ++ b }

-- The loop over the header, for the writes that the connection does; `in_write` is a write that
-- has not returned.
unfoldable pub write_header : Bytes → List ConnWrite → M Round
write_header [] ws = return (answers none)
write_header (x ∷ hdr) [] = return in_write
write_header (x ∷ hdr) (c ∷ ws) = do
  emit (take c.taken (x ∷ hdr))
  elim c.failure [
    | some e ↦ return (answers (some e))
    | none ↦ write_header (drop c.taken (x ∷ hdr)) ws
  ]

-- `io.Copy(s.conn, ready.Body)`: with no error all of the body is written.
unfoldable pub write_body : Option Bytes → ConnWrite → M Round
write_body none c = return (answers none)
write_body (some b) c = elim c.failure [
  | some e ↦ emit (take c.taken b) >> return (answers (some e))
  | none ↦ emit b >> return (answers none)
]

-- An error ends the session, and the loop with it.
abbrev pub settle : Round → M Round
settle (answers (some e)) = do modify (exit_err e); return (answers (some e))
settle r = return r

abbrev pub then_body : Option Bytes → ConnWrite → Round → M Round
then_body body c (answers none) = write_body body c
then_body body c r = return r

unfoldable pub send_ready : List SendReady → List ConnWrite → ConnWrite → M Round
send_ready [] ws c = return idle
send_ready (r ∷ rest) ws c = do
  modify λ s. record s { send_ch = rest }
  h ← write_header r.hdr ws
  d ← then_body r.body c h
  settle d

-- One round of the loop of send, for the case of the `select` that is taken.
unfoldable pub send_round : Bool → List ConnWrite → ConnWrite → M Round
send_round true ws c = do s ← get; send_ready s.send_ch ws c
send_round false ws c = do s ← get; elim s.shutdown_ch [ true ↦ return stops | false ↦ return idle ]
