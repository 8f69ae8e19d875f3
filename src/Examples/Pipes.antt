-- ===== src/Examples/Pipes.antt =====
-- A run of two ends of a stream: three bytes are written, sent, carried and received, and two are
-- read.
use n6bagent.Prelude.{
  ℕ, ◌+◌, ◌≤◌, ◌<◌, ◌≡◌, refl, ◌⊎◌, true, none, some, List, [], ◌∷◌, ◌++◌, All, length, arith,
  get_elem?,
}
use n6bagent.Yamux.Header.{Bytes}
use n6bagent.Yamux.State.{Session, Stream, quiet}
use n6bagent.Yamux.Recv.{recv_round}
use n6bagent.Yamux.Pipe.{
  Ends, Pipe, Event, wrote, gave, silent, passive, send, recv, Step, call_write, call_read,
  writer_turn, reader_turn, carry, Runs, stop, then,
}
use n6bagent.Yamux.Pipe.Fifo.{FifoRuns, written, given}
use n6bagent.Yamux.Pipe.Delivery.{Opened, Runs-FifoRuns, Runs-send_window, Runs-passive}
use n6bagent.Yamux.Pipe.Progress.{Enabled}
use n6bagent.Yamux.Pipe.Drain.{Runs-Enabled, Runs-drain}
use n6bagent.Prelude.Assoc.{lookup}
use n6bagent.Yamux.Header.{encode, version, msg_type, flags, stream_id, payload_length}
use n6bagent.Yamux.State.{wait_for_send_err}
use n6bagent.Yamux.Stream.Frames.{read_data, process_flags, accept_payload}
use n6bagent.Yamux.Io.{write, read}
use n6bagent.Yamux.Recv.{dispatch, handle_stream_message}
use n6bagent.Yamux.Send.{send_round, send_ready, write_header, write_body}
use n6bagent.Examples.Sessions.{a_stream, session, three, slow, writes}

abbrev ends : Ends
ends = record { id = 1; writing = 0; reading = 0 }

abbrev pipe : Pipe
pipe = record { writer = session []; reader = session [] }

opened : Opened ends pipe
unfolding lookup
opened = record {
  w = a_stream;
  r = a_stream;
  writing = record { here = refl; live = refl; named = refl; mapped = refl };
  reading = record { here = refl; live = refl; named = refl; mapped = refl };
  one_window = refl;
  wide = omega arith;
  recv_buf = refl;
  writer_idle = record { queue = refl; output = refl; input = refl };
  reader_idle = record { queue = refl; output = refl; input = refl };
  bound = omega arith;
  small = omega arith;
  id_fits = omega arith;
}

-- The writer when it has written, and when it has sent; the frame is fifteen bytes long.
abbrev frame : List ℕ
frame = 0 ∷ 0 ∷ 0 ∷ 0 ∷ 0 ∷ 0 ∷ 0 ∷ 1 ∷ 0 ∷ 0 ∷ 0 ∷ 3 ∷ []

abbrev less : Session
less = record (session []) { store = record a_stream { send_window = 262141 } ∷ [] }

abbrev queued : Session
queued = record less { send_ch = record { hdr = frame; body = some three; replies = true } ∷ [] }

abbrev filled : Session
filled = record (session []) {
  store = record a_stream { recv_window = 262141; recv_buf = three; recv_notify = true } ∷ [];
}

abbrev part : Session
part = record (session []) {
  store = record a_stream { recv_window = 262141; recv_buf = 33 ∷ []; recv_notify = true } ∷ [];
}

wrote_three : Step ends pipe (wrote three) (record pipe { writer = queued })
unfolding write encode wait_for_send_err
wrote_three = call_write three 3 queued (omega arith) refl

sent_three :
    Step ends
      (record pipe { writer = queued })
      silent
      (record pipe { writer = record less { output = frame ++ three } })
unfolding send_round send_ready write_header write_body
sent_three = writer_turn _ (send (writes 12) slow refl)

abbrev arrived : Pipe
arrived = record { writer = less; reader = session (frame ++ three) }

carried_three :
    Step ends (record pipe { writer = record less { output = frame ++ three } }) silent arrived
carried_three = carry _ _ (record {
  moved = frame ++ three;
  left = [];
  some_bytes = omega arith;
  from = refl;
  sent = refl;
  arrived = refl;
})

received_three : Step ends arrived silent (record arrived { reader = filled })
unfolding recv_round version msg_type flags stream_id payload_length dispatch handle_stream_message
    lookup read_data process_flags accept_payload
received_three = reader_turn filled (recv quiet quiet none (omega arith) refl)

gave_two :
    Step ends
      (record arrived { reader = filled })
      (gave (104 ∷ 105 ∷ []))
      (record arrived { reader = part })
unfolding read
gave_two = call_read 2 _ part (omega arith) refl

-- Up to the time when the frame is there, and to the end.
coming : Runs ends pipe (wrote three ∷ silent ∷ silent ∷ []) arrived
coming = then wrote_three (then sent_three (then carried_three stop))

abbrev events : List Event
events = wrote three ∷ silent ∷ silent ∷ silent ∷ gave (104 ∷ 105 ∷ []) ∷ []

abbrev last : Pipe
last = record { writer = less; reader = part }

whole_run : Runs ends pipe events last
whole_run =
    then wrote_three
      (then sent_three (then carried_three (then received_three (then gave_two stop))))

Runs-FifoRuns_example : (rest : Bytes) × FifoRuns [] events rest
Runs-FifoRuns_example = Runs-FifoRuns opened whole_run

Runs-send_window_example :
    (w r : Stream) × (coming : Bytes) × (get_elem? less.store 0 ≡ some w)
    × (get_elem? part.store 0 ≡ some r)
    × FifoRuns [] events (r.recv_buf ++ coming)
    × (w.send_window + length coming ≤ r.recv_window)
    × (r.recv_window ≤ 262144)
Runs-send_window_example = Runs-send_window opened whole_run

Runs-passive_example :
    (n : ℕ) × ((fs : List Event) (r : Pipe)
      → Runs ends last fs r
      → All (λ e. passive e ≡ true) fs
      → length fs ≤ n)
Runs-passive_example = Runs-passive opened whole_run

Runs-Enabled_example :
    Enabled ends last
    ⊎ ((given events ≡ written events)
        × (w : Stream) × (get_elem? less.store 0 ≡ some w)
        × (0 < w.send_window))
Runs-Enabled_example = Runs-Enabled opened whole_run

Runs-drain_example :
    (fs : List Event) × (r : Pipe) × (w : Stream) × Runs ends last fs r
    × All (λ e. passive e ≡ true) fs
    × (given events ++ given fs ≡ written events)
    × (get_elem? r.writer.store 0 ≡ some w)
    × (0 < w.send_window)
Runs-drain_example = Runs-drain opened whole_run
