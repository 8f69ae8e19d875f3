-- ===== src/Examples/Sessions.antt =====
-- Two ends of a yamux session with one stream, and what becomes of them.
use n6bagent.Prelude.{
  ℕ, zero, suc, ◌+◌, ◌≤◌, ◌<◌, ◌≡◌, ◌≢◌, refl, true, false, pos, Option, none, some, List, [], ◌∷◌,
  ◌++◌, length, arith, get_elem?,
}
use n6bagent.Prelude.Assoc.{lookup}
use n6bagent.Yamux.Const.{Error, eof, type_ping, flag_syn}
use n6bagent.Yamux.Header.{Bytes, encode}
use n6bagent.Yamux.State.{Config, Session, Stream, established, quiet}
use n6bagent.Yamux.Io.{Io, write_all, read}
use n6bagent.Yamux.Io.Writing.{IsCount}
use n6bagent.Yamux.Io.Total.{write_all-ends}
use n6bagent.Yamux.Io.Reading.{read-overcommits}
use n6bagent.Yamux.Send.{ConnWrite}
use n6bagent.Yamux.Recv.{recv_round, recv}
use n6bagent.Yamux.Invariant.{Inv, Keeps-refl, IsFair}
use n6bagent.Yamux.Invariant.Total.{recv_round-Inv, recv-ends}

abbrev pub config : Config
config = record {
  accept_backlog = pos 2;
  enable_keep_alive = false;
  keep_alive_interval = pos 30;
  max_stream_window_size = 262144;
}

-- An established stream.
abbrev pub a_stream : Stream
a_stream = record {
  recv_window = 262144;
  send_window = 262144;
  id = 1;
  state = established;
  recv_buf = [];
  recv_notify = false;
  send_notify = false;
  read_deadline = none;
  write_deadline = none;
}

-- A session with this stream alone, and with this input.
abbrev pub session : Bytes → Session
session input = record {
  remote_go_away = 0;
  local_go_away = 0;
  next_stream_id = 2;
  config = config;
  pings = [];
  ping_id = 7;
  closed_chans = [];
  chan_count = 0;
  store = a_stream ∷ [];
  streams = (1, 0) ∷ [];
  accept_ch = [];
  send_ch = [];
  shutdown = false;
  shutdown_err = none;
  shutdown_ch = false;
  conn_closed = false;
  input = input;
  input_end = eof;
  output = [];
}

abbrev pub three : Bytes
three = 104 ∷ 105 ∷ 33 ∷ []

-- A connection that takes one byte at a time.
abbrev pub slow : ConnWrite
slow = record { taken = 1; failure = none }

abbrev pub writes : ℕ → List ConnWrite
writes zero = []
writes (suc n) = slow ∷ writes n

-- Nothing else changes the session while a call waits.
quiet-IsFair : IsFair quiet
quiet-IsFair = record { before_keeps = λ s. Keeps-refl s; after_keeps = λ s. Keeps-refl s }

only_stream : (input : Bytes) (id ref : ℕ) → lookup id (session input).streams ≡ some ref → ref < 1
unfolding lookup
only_stream input id ref e = ground arith

session-Inv : (input : Bytes) → Inv (session input)
session-Inv input = record { mapped = only_stream input; backlog = omega arith }

-- A frame of an unknown version, after a ping.
abbrev bad_input : Bytes
bad_input = encode type_ping flag_syn 0 5 ++ (1 ∷ 0 ∷ 0 ∷ [])

recv-ends_example :
    (t : Session) × (recv 2 (λ i. (quiet, quiet)) (session bad_input) ≡ some (true, t))
    × Inv t
    × (t.shutdown ≡ true)
    × (t.shutdown_err ≢ none)
unfolding encode
recv-ends_example =
    recv-ends 2 (λ i. (quiet, quiet)) (session bad_input) (λ i. (quiet-IsFair, quiet-IsFair))
      (session-Inv bad_input) (omega arith)

recv_round-Inv_example :
    (e : Option Error) × (t : Session) × (recv_round quiet quiet (session bad_input) ≡ some (e, t))
    × Inv t
    × (e ≡ none → length t.input + 12 ≤ length bad_input)
recv_round-Inv_example =
    recv_round-Inv quiet quiet (session bad_input) quiet-IsFair quiet-IsFair (session-Inv bad_input)

write_all-ends_example :
    (r : Io) × (t : Session) × (write_all 0 three (λ i. (quiet, [])) (session []) ≡ some (r, t))
    × IsCount 0 3 r
    × Inv t
write_all-ends_example =
    write_all-ends 0 three (λ i. (quiet, [])) (session []) (λ i. (quiet-IsFair, tt))
      (session-Inv []) (omega arith)

-- Half of the window is used up by bytes that wait in the buffer.
abbrev behind : Stream
behind = record a_stream { recv_window = 131072; recv_buf = three }

read-overcommits_example :
    (u : Session) × (v : Stream) × (read 0 1 quiet [] (record (session []) { store = behind ∷ [] })
      ≡ some (some (104 ∷ [], none), u))
    × (get_elem? u.store 0 ≡ some v)
    × (v.recv_buf ≡ 105 ∷ 33 ∷ [])
    × (v.recv_window ≡ 262144)
    × (262144 < v.recv_window + length v.recv_buf)
read-overcommits_example =
    read-overcommits 0 1 (record (session []) { store = behind ∷ [] }) behind refl refl
      (omega arith) (omega arith) (omega arith)
