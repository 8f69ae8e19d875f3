-- ===== src/Examples/Streams.antt =====
-- Streams that are opened, offered, moved and closed, pings, and the end of a session.
use n6bagent.Prelude.{◌≡◌, refl, true, none, some, [], ◌∷◌}
use n6bagent.Prelude.Assoc.{delete}
use n6bagent.Yamux.Const.{type_window_update, flag_fin}
use n6bagent.Yamux.Header.{encode}
use n6bagent.Yamux.State.{Session, established, closed, remote_close, quiet}
use n6bagent.Yamux.Stream.{close}
use n6bagent.Yamux.Stream.Frames.{process}
use n6bagent.Yamux.Stream.Flags.{PeerMove, process-PeerMove}
use n6bagent.Yamux.Stream.Lifecycle.{close_lem}
use n6bagent.Examples.Sessions.{a_stream, session}

process-PeerMove_example :
    let p = process 4 a_stream in
    PeerMove established p.stream.state p.removed
    × (p.stream.id ≡ 1)
    × (p.stream.recv_window ≡ 262144)
    × (p.stream.send_window ≡ 262144)
    × (p.stream.recv_buf ≡ [])
process-PeerMove_example = process-PeerMove 4 a_stream

-- A stream that the peer has closed.
abbrev half : Session
half = record (session []) { store = record a_stream { state = remote_close } ∷ [] }

close_lem_example :
    close 0 quiet half
    ≡ some (
      none,
      record half {
        store = record a_stream { state = closed; recv_notify = true; send_notify = true } ∷ [];
        streams = [];
        send_ch =
            record { hdr = encode type_window_update flag_fin 1 0; body = none; replies = true }
            ∷ [];
      },
    )
unfolding delete
close_lem_example = close_lem 0 half (record a_stream { state = remote_close }) refl
