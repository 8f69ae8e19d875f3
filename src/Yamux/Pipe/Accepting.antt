-- ===== src/Yamux/Pipe/Accepting.antt =====
-- The frames by which a stream is made at the other end and accepted there.
use n6bagent.Prelude.{
  ℕ, ◌+◌, ◌-◌, ◌^◌, ◌≤◌, ◌<◌, ◌≡◌, ◌≢◌, refl, ap, ◌∙◌, false, true, none, some, [], ◌∷◌, ◌++◌,
  length, arith, get_elem?, get_elem?-set, get_elem?-append_length, set-append_length, set-set,
  to_ℕ,
}
use n6bagent.Prelude.Assoc.{lookup, lookup-insert}
use n6bagent.Yamux.Const.{type_window_update, flag_syn, flag_ack, initial_stream_window}
use n6bagent.Yamux.Header.{Bytes, encode, msg_type, flags, stream_id, payload_length}
use n6bagent.Yamux.Header.RoundTrip.{Fits, fields-encode}
use n6bagent.Yamux.State.{
  Session, Stream, syn_sent, syn_received, established, Wait, quiet, wait_for_send_err, ◌>>=◌,
}
use n6bagent.Yamux.Stream.{new_stream, flags_for, send_window_update}
use n6bagent.Yamux.Stream.Frames.{
  process, Processed, process_flags, incr_send_window, grow_send_window,
}
use n6bagent.Yamux.Stream.Windows.{with_stream, queued}
use n6bagent.Yamux.Session.{accept_stream, a_stream, done}
use n6bagent.Yamux.Recv.{
  recv_round, dispatch, handle_stream_message, deliver_found, incoming_stream,
}
use n6bagent.Yamux.Recv.Rounds.{recv_round_frame}
use n6bagent.Yamux.Recv.Incoming.{admitted, incoming_stream_ok}
use n6bagent.Yamux.Recv.Updates.{widened}

abbrev going : Stream → Processed
going st = record { stream = st; removed = false; failure = none }

-- An update whose flags lead the stream to `st'` adds to the window of that.
deliver_update :
    (hdr : Bytes) (fl n ref : ℕ) (v : Wait) (s : Session) (st st' : Stream)
    → msg_type hdr ≡ type_window_update
    → flags hdr ≡ fl
    → payload_length hdr ≡ n
    → lookup (stream_id hdr) s.streams ≡ some ref
    → get_elem? s.store ref ≡ some st
    → process fl st ≡ going st'
    → st'.send_window + n < 2 ^ 32
    → deliver_found hdr v s ≡ some (none, with_stream ref (widened n st') s)
unfolding incr_send_window grow_send_window process_flags
deliver_update hdr fl n ref v s st st' ty flagged len found here moved fits = ground (
  arith,
  ty,
  flagged,
  len,
  found,
  here,
  moved,
  fits,
  get_elem?-set s.store ref st' st here,
  set-set s.store ref st' (widened n st'),
)

ack_frame :
    (hdr : Bytes) (w v : Wait) (s t : Session)
    → msg_type hdr ≡ type_window_update
    → flags hdr ≡ flag_ack
    → deliver_found hdr v s ≡ some (none, t)
    → dispatch hdr w v s ≡ some (none, t)
unfolding dispatch handle_stream_message
ack_frame hdr w v s t ty fl given = rw (ty, fl) given

syn_frame :
    (hdr : Bytes) (w v : Wait) (s t u : Session)
    → msg_type hdr ≡ type_window_update
    → flags hdr ≡ flag_syn
    → incoming_stream (stream_id hdr) w s ≡ some (none, t)
    → deliver_found hdr v t ≡ some (none, u)
    → dispatch hdr w v s ≡ some (none, u)
unfolding dispatch handle_stream_message
syn_frame hdr w v s t u ty fl made given = rw (ty, fl, ◌>>=◌, made) given

update-Fits :
    (fl id n : ℕ) → fl < 2 ^ 16 → id < 2 ^ 32 → n < 2 ^ 32 → Fits type_window_update fl id n
update-Fits fl id n flag small short = record {
  type_fits = omega arith;
  flags_fit = flag;
  id_fits = small;
  length_fits = short;
}

-- The stream that a SYN with an update of `n` makes, and the session with it.
abbrev pub asked : ℕ → ℕ → Stream
asked id n = record (new_stream id syn_received) {
  send_window = initial_stream_window + n;
  send_notify = true;
}

abbrev pub seen : ℕ → ℕ → Session → Session
seen id n s = record (admitted id s) { store = s.store ++ asked id n ∷ [] }

-- The first frame of a peer's stream, an update with SYN: while the session takes streams and the
-- backlog has room, the stream is made, with a window that is larger by the update.
pub recv_round_syn :
    (id n : ℕ) (w v : Wait) (s : Session)
    → s.input ≡ encode type_window_update flag_syn id n ++ []
    → id < 2 ^ 32
    → initial_stream_window + n < 2 ^ 32
    → s.local_go_away ≢ 1
    → lookup id s.streams ≡ none
    → length s.accept_ch < to_ℕ s.config.accept_backlog
    → recv_round w v s ≡ some (none, seen id n (record s { input = [] }))
unfolding new_stream process
recv_round_syn id n w v s e small fits taking fresh room =
    let hdr : Bytes = encode type_window_update flag_syn id n in
    let f = update-Fits flag_syn id n (omega arith) small (omega arith) in
    let (vs, ty, fl, i, len) = fields-encode type_window_update flag_syn id n f in
    let t : Session = record s { input = [] } in
    let u : Session = admitted id t in
    let ref : ℕ = length s.store in
    let st : Stream = new_stream id syn_received in
    let found : lookup id u.streams ≡ some ref =
      ground (arith, lookup-insert id id ref s.streams) in
    recv_round_frame type_window_update flag_syn id n [] w v s f e
    ∙ syn_frame hdr w v t u _ ty fl (rw i (incoming_stream_ok id w t taking fresh room)) (
        deliver_update hdr flag_syn n ref v u st st ty fl len (rw i found)
          (get_elem?-append_length s.store st) refl fits
        ∙ ap (λ x. some (none, record u { store = x }))
            (set-append_length s.store st (widened n st)))

-- The answer with ACK, an update as well, establishes a stream that waits for it.
pub recv_round_ack :
    (id n ref : ℕ) (w v : Wait) (s : Session) (st : Stream)
    → s.input ≡ encode type_window_update flag_ack id n ++ []
    → id < 2 ^ 32
    → st.send_window + n < 2 ^ 32
    → lookup id s.streams ≡ some ref
    → get_elem? s.store ref ≡ some st
    → st.state ≡ syn_sent
    → recv_round w v s
      ≡ some (
        none,
        with_stream ref (widened n (record st { state = established })) (record s { input = [] }),
      )
unfolding process
recv_round_ack id n ref w v s st e small fits found here sent =
    let hdr : Bytes = encode type_window_update flag_ack id n in
    let f = update-Fits flag_ack id n (omega arith) small (omega arith) in
    let (vs, ty, fl, i, len) = fields-encode type_window_update flag_ack id n f in
    recv_round_frame type_window_update flag_ack id n [] w v s f e
    ∙ ack_frame hdr w v (record s { input = [] }) _ ty fl
        (deliver_update hdr flag_ack n ref v (record s { input = [] }) st
          (record st { state = established }) ty fl len (rw i found) here (ground (arith, sent))
          fits)

-- The session behind an AcceptStream that nothing disturbs, of the last stream of its store.
abbrev pub accepted : ℕ → Stream → Session → Session
accepted ref st s =
    let max = s.config.max_stream_window_size in
    with_stream ref (record st { state = established; recv_window = max })
      (queued (encode type_window_update flag_ack st.id (max - initial_stream_window)) none
        (record s { accept_ch = [] }))

pub accept_stream_one :
    (ref : ℕ) (s : Session) (st : Stream)
    → s.accept_ch ≡ ref ∷ []
    → get_elem? s.store ref ≡ some st
    → st.state ≡ syn_received
    → st.recv_window ≡ initial_stream_window
    → initial_stream_window ≤ s.config.max_stream_window_size
    → s.config.max_stream_window_size < 2 ^ 32
    → accept_stream a_stream quiet s ≡ some (done (some ref, none), accepted ref st s)
unfolding accept_stream send_window_update wait_for_send_err flags_for
accept_stream_one ref s st waits here got first wide fits =
    let max = s.config.max_stream_window_size in
    let flagged : Stream = record st { state = established } in
    ground (
      arith,
      waits,
      here,
      got,
      first,
      get_elem?-set s.store ref flagged st here,
      set-set s.store ref flagged (record flagged { recv_window = max }),
    )
