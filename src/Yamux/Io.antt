-- ===== src/Yamux/Io.antt =====
-- stream.go: Read and Write of a stream, with the waits for data and for a window.
pub mod Writing
pub mod Quiet
pub mod Reading
pub mod Serving
pub mod Passing
pub mod Total
use n6bagent.Prelude.{
  ℕ, zero, suc, ◌+◌, Bool, true, false, Option, none, some, List, [], ◌∷◌, length, take, drop, ◌==◌,
  if◌then◌else◌,
}
use n6bagent.Yamux.Const.{
  Error, eof, timeout, stream_closed, connection_reset, type_data, async_notify, min,
}
use n6bagent.Yamux.Header.{Bytes, encode}
use n6bagent.Yamux.State.{
  Session, Stream, StreamState, init, syn_sent, syn_received, established, local_close,
  remote_close, closed, reset, Wait, M, ◌>>=◌, ◌>>◌, return, get, modify, load, save,
  wait_for_send_err,
}
use n6bagent.Yamux.Stream.{sub_uint32, send_flags, send_window_update}

-- What ends the wait of a blocked call: a signal or the timer, after what the others did. A signal
-- that is not there and a timer that was not set leave the call blocked.
pub data Wake : Type 0 where
  signal : (Session → Session) → Wake
  timer : (Session → Session) → Wake

-- Go's pair of a count and an error, or a call that has not returned. `spent` is no answer of the
-- program: the fuel of a loop ran out.
pub data Io : Type 0 where
  done : ℕ → Option Error → Io
  blocked : Io
  spent : Io

abbrev pub refusal : StreamState → Option Error
refusal local_close = some stream_closed
refusal closed = some stream_closed
refusal reset = some connection_reset
refusal _ = none

-- Behind the wait for the sender: the window is reduced from what it is then.
unfoldable pub sent : ℕ → ℕ → Option Error → M Io
sent ref n (some e) = return (done 0 (some e))
sent ref n none = do
  st ← load ref
  save ref (record st { send_window = sub_uint32 st.send_window n })
  return (done n none)

unfoldable pub send_chunk : ℕ → Stream → Bytes → Wait → M Io
unfolding send_flags sent
send_chunk ref st b w = do
  fl ← send_flags ref
  let max = min st.send_window (length b)
  e ← wait_for_send_err (encode type_data fl st.id max) (some (take max b)) w
  sent ref max e

-- The pass of `write` from START; `wait` is what follows the label WAIT.
unfoldable pub write_pass : ℕ → Bytes → Wait → M Io → M Io
unfolding send_chunk
write_pass ref b w wait = do
  st ← load ref
  elim (refusal st.state) [
    | some e ↦ return (done 0 (some e))
    | none ↦ if st.send_window == 0 then wait else send_chunk ref st b w
  ]

timed_out : Option ℕ → M Io
timed_out none = return blocked
timed_out (some t) = return (done 0 (some timeout))

-- The `case` of the signal: it is taken from the channel, and the call starts again.
unfoldable pub write_again : ℕ → Stream → M Io → M Io
write_again ref st again = elim st.send_notify [
  | false ↦ return blocked
  | true ↦ save ref (record st { send_notify = false }) >> again
]

-- `write`, with what wakes it while there is no window.
unfoldable pub write : ℕ → Bytes → Wait → List Wake → M Io
unfolding write_pass write_again timed_out
write ref b w [] = write_pass ref b w (return blocked)
write ref b w (signal f ∷ more) =
    write_pass ref b w (do modify f; st ← load ref; write_again ref st (write ref b w more))
write ref b w (timer f ∷ more) =
    write_pass ref b w (do modify f; st ← load ref; timed_out st.write_deadline)

-- What the loop of Write does with the result of `write`; `more` is the next round.
unfoldable pub next_chunk : ℕ → Io → (ℕ → M Io) → M Io
next_chunk total blocked more = return blocked
next_chunk total spent more = return spent
next_chunk total (done n (some e)) more = return (done (total + n) (some e))
next_chunk total (done n none) more = more n

-- The loop of Write over what is left of the bytes, with fuel: the waits of each call of `write`
-- and the count so far.
unfoldable pub write_loop : ℕ → ℕ → Bytes → (ℕ → Wait × List Wake) → ℕ → M Io
unfolding next_chunk
write_loop fuel ref [] turns total = return (done total none)
write_loop zero ref (x ∷ b) turns total = return spent
write_loop (suc fuel) ref (x ∷ b) turns total = do
  r ← write ref (x ∷ b) (turns fuel).0 (turns fuel).1
  next_chunk total r (λ n. write_loop fuel ref (drop n (x ∷ b)) turns (total + n))

-- A call of `write` that returns no error took a byte at least, so the length is fuel enough.
unfoldable pub write_all : ℕ → Bytes → (ℕ → Wait × List Wake) → M Io
unfolding write_loop
write_all ref b turns = write_loop (length b) ref b turns 0

-- Whether Read returns before it looks at the buffer.
abbrev pub read_refusal : StreamState → Bytes → Option Error
read_refusal remote_close [] = some eof
read_refusal closed [] = some eof
read_refusal reset buf = some connection_reset
read_refusal _ _ = none

-- Read's deferred `asyncNotify(s.recvNotifyCh)`.
abbrev leave_read : ℕ → Bytes × Option Error → M (Option (Bytes × Option Error))
leave_read ref r = do
  st ← load ref
  save ref (record st { recv_notify = async_notify st.recv_notify })
  return (some r)

-- `s.recvBuf.Read(b)` for `b` of length `n`, and the window update.
abbrev take_bytes : ℕ → ℕ → Stream → Wait → M (Option (Bytes × Option Error))
take_bytes ref n st w = do
  save ref (record st { recv_buf = drop n st.recv_buf })
  e ← send_window_update ref w
  leave_read ref (take n st.recv_buf, e)

-- The pass of Read from START.
unfoldable pub read_pass :
    ℕ → ℕ → Wait → M (Option (Bytes × Option Error)) → M (Option (Bytes × Option Error))
unfolding send_window_update
read_pass ref n w wait = do
  st ← load ref
  elim (read_refusal st.state st.recv_buf) [
    | some e ↦ leave_read ref ([], some e)
    | none ↦ elim st.recv_buf [ [] ↦ wait | x ∷ xs ↦ take_bytes ref n st w ]
  ]

read_timed_out : ℕ → Option ℕ → M (Option (Bytes × Option Error))
read_timed_out ref none = return none
read_timed_out ref (some t) = leave_read ref ([], some timeout)

-- Read, with the bytes that it puts into its argument; `none` is a call that still waits.
unfoldable pub read : ℕ → ℕ → Wait → List Wake → M (Option (Bytes × Option Error))
unfolding read_pass read_timed_out
read ref n w [] = read_pass ref n w (return none)
read ref n w (signal f ∷ more) = read_pass ref n w (do
  modify f
  st ← load ref
  elim st.recv_notify [
    | false ↦ return none
    | true ↦ (do save ref (record st { recv_notify = false }); read ref n w more)
  ])
read ref n w (timer f ∷ more) =
    read_pass ref n w (do modify f; st ← load ref; read_timed_out ref st.read_deadline)
