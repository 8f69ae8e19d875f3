-- ===== src/Yamux/Recv/Incoming.antt =====
-- What a SYN of the peer does.
use n6bagent.Prelude.{
  ℕ, ◌+◌, ◌≤◌, ◌<◌, ◌≡◌, ◌≢◌, refl, false, none, some, [], ◌∷◌, ◌++◌, length, length-append, arith,
  to_ℕ,
}
use n6bagent.Prelude.Assoc.{lookup, insert, delete, lookup-insert, lookup-delete}
use n6bagent.Yamux.Const.{
  duplicate_stream, type_window_update, type_go_away, flag_rst, go_away_proto_err,
}
use n6bagent.Yamux.Header.{Bytes, encode}
use n6bagent.Yamux.State.{Session, syn_received, Wait, quiet, send_no_wait}
use n6bagent.Yamux.Stream.{new_stream}
use n6bagent.Yamux.Session.{open_stream}
use n6bagent.Yamux.Session.Opening.{IsOpen, opened, open_stream_ok}
use n6bagent.Yamux.Recv.{incoming_stream}

-- A frame that is sent with no wait.
abbrev pub posted : Bytes → Session → Session
posted hdr s = record s {
  send_ch = s.send_ch ++ record { hdr = hdr; body = none; replies = false } ∷ [];
}

-- The session with a stream of the peer made, in the map and in the backlog.
abbrev pub admitted : ℕ → Session → Session
admitted id s = record s {
  store = s.store ++ new_stream id syn_received ∷ [];
  streams = insert id (length s.store) s.streams;
  accept_ch = s.accept_ch ++ length s.store ∷ [];
}

-- A new identifier is admitted while the session takes streams and the backlog has room: the
-- stream waits at the end of the backlog in the state of a received SYN, and nothing is sent.
pub incoming_stream_ok :
    (id : ℕ) (w : Wait) (s : Session)
    → s.local_go_away ≢ 1
    → lookup id s.streams ≡ none
    → length s.accept_ch < to_ℕ s.config.accept_backlog
    → incoming_stream id w s ≡ some (none, admitted id s)
unfolding incoming_stream
incoming_stream_ok id w s taking fresh room = ground (arith, fresh)

-- With a full backlog a new identifier is reset, while the session takes streams: the peer is sent RST for it, it is not in the map,
-- and the backlog is as it was.
pub incoming_stream_full :
    (id : ℕ) (s : Session)
    → s.local_go_away ≢ 1
    → lookup id s.streams ≡ none
    → to_ℕ s.config.accept_backlog ≤ length s.accept_ch
    → (u : Session) × (incoming_stream id quiet s ≡ some (none, u))
      × (u.send_ch
          ≡ s.send_ch
            ++ record {
              hdr = encode type_window_update flag_rst id 0;
              body = none;
              replies = false;
            }
              ∷ [])
      × (lookup id u.streams ≡ none)
      × (u.accept_ch ≡ s.accept_ch)
unfolding incoming_stream send_no_wait
incoming_stream_full id s taking fresh full = (
  posted (encode type_window_update flag_rst id 0) (record s {
    store = s.store ++ new_stream id syn_received ∷ [];
    streams = delete id (insert id (length s.store) s.streams);
  }),
  ground (arith, fresh),
  refl,
  ground (arith, lookup-delete id id (insert id (length s.store) s.streams)),
  refl,
)

-- An identifier that is in the map is an error while the session takes streams, after a go away for
-- a protocol error is sent; the map and the backlog stay as they were, and the session takes no
-- further streams.
pub incoming_stream_duplicate :
    (id old : ℕ) (s : Session)
    → s.local_go_away ≢ 1
    → lookup id s.streams ≡ some old
    → (u : Session) × (incoming_stream id quiet s ≡ some (some duplicate_stream, u))
      × (u.send_ch
          ≡ s.send_ch
            ++ record {
              hdr = encode type_go_away 0 0 go_away_proto_err;
              body = none;
              replies = false;
            }
              ∷ [])
      × (u.streams ≡ s.streams)
      × (u.accept_ch ≡ s.accept_ch)
      × (u.local_go_away ≡ 1)
unfolding incoming_stream send_no_wait
incoming_stream_duplicate id old s taking there = (
  posted (encode type_go_away 0 0 go_away_proto_err)
      (record s { store = s.store ++ new_stream id syn_received ∷ []; local_go_away = 1 }),
  ground (arith, there),
  refl,
  refl,
  refl,
  refl,
)

-- Nothing keeps a peer from using an identifier that this end would give out next, while there is
-- room in the backlog. OpenStream then takes it a second time, and the peer's stream, which still waits to be accepted, is no
-- longer the one in the map.
pub open_stream-displaces :
    (s : Session) (w : Wait)
    → IsOpen s
    → s.local_go_away ≢ 1
    → 262144 ≤ s.config.max_stream_window_size
    → s.config.max_stream_window_size < 4294967296
    → lookup s.next_stream_id s.streams ≡ none
    → length s.accept_ch < to_ℕ s.config.accept_backlog
    → (t u : Session) × (incoming_stream s.next_stream_id w s ≡ some (none, t))
      × (lookup s.next_stream_id t.streams ≡ some (length s.store))
      × (open_stream quiet t ≡ some ((some (length t.store), none), u))
      × (lookup s.next_stream_id u.streams ≡ some (length s.store + 1))
      × (u.accept_ch ≡ s.accept_ch ++ length s.store ∷ [])
open_stream-displaces s w o taking wide fits fresh room =
    let t : Session = admitted s.next_stream_id s in
    let u : Session = opened t in
    (
      t,
      u,
      incoming_stream_ok s.next_stream_id w s taking fresh room,
      ground (arith, lookup-insert s.next_stream_id s.next_stream_id (length s.store) s.streams),
      open_stream_ok t (record { running = o.running; welcome = o.welcome; more_ids = o.more_ids })
          wide fits,
      ground (
        arith,
        lookup-insert s.next_stream_id s.next_stream_id (length t.store) t.streams,
        length-append s.store (new_stream s.next_stream_id syn_received ∷ []),
      ),
      refl,
    )
