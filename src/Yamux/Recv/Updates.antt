-- ===== src/Yamux/Recv/Updates.antt =====
-- What one round of recv does with a window update that `encode` wrote.
use n6bagent.Prelude.{ℕ, ◌+◌, ◌<◌, ◌^◌, ◌≡◌, ◌∙◌, true, none, some, ◌++◌, arith, get_elem?}
use n6bagent.Prelude.Assoc.{lookup}
use n6bagent.Yamux.Const.{type_window_update}
use n6bagent.Yamux.Header.{Bytes, encode, msg_type, flags, stream_id, payload_length}
use n6bagent.Yamux.Header.RoundTrip.{Fits, fields-encode}
use n6bagent.Yamux.State.{Session, Stream, Wait}
use n6bagent.Yamux.Stream.Frames.{incr_send_window, grow_send_window}
use n6bagent.Yamux.Stream.Windows.{with_stream}
use n6bagent.Yamux.Recv.{recv_round, dispatch, handle_stream_message}
use n6bagent.Yamux.Recv.Rounds.{recv_round_frame, process_flags-none}

abbrev pub widened : ℕ → Stream → Stream
widened n st = record st { send_window = st.send_window + n; send_notify = true }

update_frame :
    (hdr : Bytes) (n ref : ℕ) (w v : Wait) (s : Session) (st : Stream)
    → msg_type hdr ≡ type_window_update
    → flags hdr ≡ 0
    → payload_length hdr ≡ n
    → lookup (stream_id hdr) s.streams ≡ some ref
    → get_elem? s.store ref ≡ some st
    → st.send_window + n < 2 ^ 32
    → dispatch hdr w v s ≡ some (none, with_stream ref (widened n st) s)
unfolding dispatch handle_stream_message incr_send_window grow_send_window
update_frame hdr n ref w v s st ty fl len found here fits =
    rw (ty, fl) (ground (arith, ty, fl, len, found, here, fits, process_flags-none ref s st here))

-- A round whose input begins with a window update of `n` without flags, for a stream in the map
-- whose window has room for it, takes the frame off the input, adds `n` to the window and wakes a
-- writer. The rest of the session stays.
pub recv_round_update :
    (id ref n : ℕ) (rest : Bytes) (w v : Wait) (s : Session) (st : Stream)
    → s.input ≡ encode type_window_update 0 id n ++ rest
    → lookup id s.streams ≡ some ref
    → get_elem? s.store ref ≡ some st
    → id < 2 ^ 32
    → st.send_window + n < 2 ^ 32
    → recv_round w v s ≡ some (none, with_stream ref (widened n st) (record s { input = rest }))
recv_round_update id ref n rest w v s st e found here small fits =
    let hdr : Bytes = encode type_window_update 0 id n in
    let f : Fits type_window_update 0 id n = record {
      type_fits = omega arith;
      flags_fit = omega arith;
      id_fits = small;
      length_fits = omega arith;
    } in
    let (vs, ty, fl, i, len) = fields-encode type_window_update 0 id n f in
    recv_round_frame type_window_update 0 id n rest w v s f e
    ∙ update_frame hdr n ref w v (record s { input = rest }) st ty fl len (rw i found) here fits
