-- ===== src/Yamux/Pipe/Opening.antt =====
-- How a stream comes to be established at both ends: OpenStream, AcceptStream and their frames.
use n6bagent.Prelude.{ℕ, ◌-◌, ◌^◌, ◌≤◌, ◌<◌, ◌≡◌, ◌≢◌, true, none, [], length, to_ℕ}
use n6bagent.Prelude.Assoc.{lookup}
use n6bagent.Yamux.Const.{type_window_update, flag_syn, flag_ack, initial_stream_window}
use n6bagent.Yamux.Header.{Bytes, encode}
use n6bagent.Yamux.State.{Session, Stream, SendReady, syn_sent, established, Wait}
use n6bagent.Yamux.Stream.{new_stream}
use n6bagent.Yamux.Stream.Windows.{with_stream}
use n6bagent.Yamux.Session.Opening.{IsOpen, opened}
use n6bagent.Yamux.Recv.Updates.{widened}
use n6bagent.Yamux.Pipe.Accepting.{asked, seen, accepted}
use n6bagent.Yamux.Pipe.Delivery.{Idle}

-- A frame without a body on the queue, with an error channel.
abbrev pub announced : Bytes → SendReady
announced hdr = record { hdr = hdr; body = none; replies = true }

-- An end that takes streams, with no other that waits to be accepted and no stream of this identifier.
pub record IsReady (s : Session) (id : ℕ) : Type 0 where
  pub idle : Idle s
  pub taking : s.local_go_away ≢ 1
  pub fresh : lookup id s.streams ≡ none
  pub none_waits : s.accept_ch ≡ []
  pub room : 0 < to_ℕ s.config.accept_backlog
  pub wide : initial_stream_window ≤ s.config.max_stream_window_size
  pub fits : s.config.max_stream_window_size < 2 ^ 32

module _ (a b : Session) (w v x y : Wait) (o : IsOpen a) (idle : Idle a)
    (wide : initial_stream_window ≤ a.config.max_stream_window_size)
    (fits : a.config.max_stream_window_size < 2 ^ 32) (ready : IsReady b a.next_stream_id) where
  abbrev id : ℕ
  id = a.next_stream_id

  abbrev room_a : ℕ
  room_a = a.config.max_stream_window_size - initial_stream_window

  abbrev room_b : ℕ
  room_b = b.config.max_stream_window_size - initial_stream_window

  abbrev syn : Bytes
  syn = encode type_window_update flag_syn id room_a

  abbrev ack : Bytes
  ack = encode type_window_update flag_ack id room_b

  abbrev seen_b : Session
  seen_b = seen id room_a (record b { input = [] })

  abbrev accepted_b : Session
  accepted_b = accepted (length b.store) (asked id room_a) seen_b

  abbrev sent_a : Session
  sent_a = record (opened a) { send_ch = []; input = ack }

  abbrev half : Stream
  half = record (new_stream id syn_sent) { recv_window = a.config.max_stream_window_size }

  abbrev acked_a : Session
  acked_a =
      with_stream (length a.store) (widened room_b (record half { state = established }))
        (record sent_a { input = [] })

  abbrev sent_b : Session
  sent_b = record accepted_b { send_ch = [] }

  abbrev writer_a : Stream
  writer_a = widened room_b (record half { state = established })

  abbrev stream_b : Stream
  stream_b = record (asked id room_a) {
    state = established;
    recv_window = b.config.max_stream_window_size;
  }
