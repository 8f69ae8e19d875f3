-- ===== src/Yamux/Recv/Pings.antt =====
-- A ping and its answer, through recv at both ends.
use n6bagent.Prelude.{ℕ, ◌+◌, ◌%◌, ◌<◌, ◌^◌, ◌≡◌, refl, ◌∙◌, none, some, ◌∷◌, ◌++◌, arith}
use n6bagent.Prelude.Assoc.{lookup, insert, delete, lookup-insert, lookup-delete}
use n6bagent.Yamux.Const.{type_ping, flag_syn, flag_ack}
use n6bagent.Yamux.Header.{Bytes, encode, msg_type}
use n6bagent.Yamux.Header.RoundTrip.{Fits, fields-encode}
use n6bagent.Yamux.State.{Session, Wait, quiet, send_no_wait}
use n6bagent.Yamux.Session.{register_ping}
use n6bagent.Yamux.Recv.{recv_round, dispatch, handle_ping}
use n6bagent.Yamux.Recv.Rounds.{recv_round_frame}
use n6bagent.Yamux.Recv.Incoming.{posted}

ping-Fits : (fl id : ℕ) → fl < 2 ^ 16 → id < 2 ^ 32 → Fits type_ping fl 0 id
ping-Fits fl id h k = record {
  type_fits = omega arith;
  flags_fit = h;
  id_fits = omega arith;
  length_fits = k;
}

-- A frame of type ping is handed to handlePing.
dispatch_ping :
    (hdr : Bytes) (w v : Wait) (s : Session)
    → msg_type hdr ≡ type_ping
    → dispatch hdr w v s ≡ handle_ping hdr w s
unfolding dispatch
dispatch_ping hdr w v s e = rw e

-- A request is answered with its own identifier, and changes nothing else.
recv_round_request :
    (id : ℕ) (rest : Bytes) (v : Wait) (s : Session)
    → id < 2 ^ 32
    → s.input ≡ encode type_ping flag_syn 0 id ++ rest
    → recv_round quiet v s
      ≡ some (none, posted (encode type_ping flag_ack 0 id) (record s { input = rest }))
unfolding handle_ping send_no_wait
recv_round_request id rest v s lt e =
    let f = ping-Fits flag_syn id (omega arith) lt in
    let (vs, ty, fl, i, len) = fields-encode type_ping flag_syn 0 id f in
    recv_round_frame type_ping flag_syn 0 id rest quiet v s f e
    ∙ dispatch_ping _ quiet v (record s { input = rest }) ty
    ∙ rw (fl, len)

-- An answer to a pending ping closes its channel and forgets it.
recv_round_answer :
    (id ch : ℕ) (rest : Bytes) (w v : Wait) (s : Session)
    → id < 2 ^ 32
    → s.input ≡ encode type_ping flag_ack 0 id ++ rest
    → lookup id s.pings ≡ some ch
    → recv_round w v s
      ≡ some (
        none,
        record s { input = rest; pings = delete id s.pings; closed_chans = ch ∷ s.closed_chans },
      )
unfolding handle_ping
recv_round_answer id ch rest w v s lt e pending =
    let f = ping-Fits flag_ack id (omega arith) lt in
    let (vs, ty, fl, i, len) = fields-encode type_ping flag_ack 0 id f in
    recv_round_frame type_ping flag_ack 0 id rest w v s f e
    ∙ dispatch_ping _ w v (record s { input = rest }) ty
    ∙ rw (fl, len, pending)

-- A ping that a session registers, sent to any other session, is answered there by one frame with
-- the same identifier; this answer, read by a session with that ping pending, wakes exactly the
-- caller of the ping, and the identifier is pending no more.
pub ping_round_trip :
    (a b : Session) (rest more : Bytes) (w v u : Wait)
    → a.ping_id < 2 ^ 32
    → (a' c : Session) × (register_ping a ≡ some (a.ping_id, a'))
      × (recv_round quiet v (record b { input = encode type_ping flag_syn 0 a.ping_id ++ rest })
          ≡ some (none, posted (encode type_ping flag_ack 0 a.ping_id) (record b { input = rest })))
      × (recv_round w u (record a' { input = encode type_ping flag_ack 0 a.ping_id ++ more })
          ≡ some (none, c))
      × (c.closed_chans ≡ a.chan_count ∷ a.closed_chans)
      × (lookup a.ping_id c.pings ≡ none)
unfolding register_ping
ping_round_trip a b rest more w v u lt =
    let a' : Session = record a {
      ping_id = (a.ping_id + 1) % 2 ^ 32;
      pings = insert a.ping_id a.chan_count a.pings;
      chan_count = a.chan_count + 1;
    } in
    (
      a',
      record a' {
        input = more;
        pings = delete a.ping_id a'.pings;
        closed_chans = a.chan_count ∷ a.closed_chans;
      },
      refl,
      recv_round_request a.ping_id rest v _ lt refl,
      recv_round_answer a.ping_id a.chan_count more w u _ lt refl
          (ground (arith, lookup-insert a.ping_id a.ping_id a.chan_count a.pings)),
      refl,
      ground (arith, lookup-delete a.ping_id a.ping_id a'.pings),
    )
