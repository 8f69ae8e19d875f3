-- ===== src/Examples/Peers.antt =====
-- Streams that are opened and offered, pings, windows, configurations, and the end of a session.
use n6bagent.Prelude.{ℕ, ◌≡◌, refl, true, none, some, [], ◌∷◌, ◌++◌, length, arith, ◌<◌}
use n6bagent.Prelude.Assoc.{lookup}
use n6bagent.Yamux.Const.{Error, eof, type_ping, flag_syn, flag_ack}
use n6bagent.Yamux.Header.{encode}
use n6bagent.Yamux.State.{Session, quiet}
use n6bagent.Yamux.Session.{open_stream, exit_err, register_ping}
use n6bagent.Yamux.Session.Opening.{IsOpen}
use n6bagent.Yamux.Session.Ending.{EndedAt, exit_err-ends}
use n6bagent.Yamux.Recv.{incoming_stream, recv_round}
use n6bagent.Yamux.Recv.Incoming.{posted, open_stream-displaces}
use n6bagent.Yamux.Recv.Pings.{ping_round_trip}
use n6bagent.Examples.Sessions.{session}

-- A session that may open streams, with its stream alone.
session-IsOpen : IsOpen (session [])
session-IsOpen = record { running = refl; welcome = omega arith; more_ids = omega arith }

open_stream-displaces_example :
    (t u : Session) × (incoming_stream 2 quiet (session []) ≡ some (none, t))
    × (lookup 2 t.streams ≡ some 1)
    × (open_stream quiet t ≡ some ((some (length t.store), none), u))
    × (lookup 2 u.streams ≡ some 2)
    × (u.accept_ch ≡ 1 ∷ [])
unfolding lookup
open_stream-displaces_example =
    open_stream-displaces (session []) quiet session-IsOpen (omega arith) (omega arith)
      (omega arith) refl (omega arith)

ping_round_trip_example :
    (a' c : Session) × (register_ping (session []) ≡ some (7, a'))
    × (recv_round quiet quiet
          (record (session []) { input = encode type_ping flag_syn 0 7 ++ 9 ∷ [] })
        ≡ some (none, posted (encode type_ping flag_ack 0 7) (session (9 ∷ []))))
    × (recv_round quiet quiet (record a' { input = encode type_ping flag_ack 0 7 ++ [] })
        ≡ some (none, c))
    × (c.closed_chans ≡ 0 ∷ [])
    × (lookup 7 c.pings ≡ none)
ping_round_trip_example =
    ping_round_trip (session []) (session []) (9 ∷ []) [] quiet quiet quiet (omega arith)

only_stream : (id ref : ℕ) → lookup id (session []).streams ≡ some ref → ref < 1
unfolding lookup
only_stream id ref e = ground arith

exit_err-ends_example :
    let s = exit_err eof (session []) in
    (s.shutdown_err ≡ some eof)
    × (s.conn_closed ≡ true)
    × (s.shutdown_ch ≡ true)
    × ((id ref : ℕ) → lookup id ((1, 0) ∷ []) ≡ some ref → EndedAt ref s.store)
    × ((d : Error) → exit_err d s ≡ s)
exit_err-ends_example = exit_err-ends eof (session []) only_stream refl refl
