-- ===== src/Yamux/Stream/Flags.antt =====
-- How the flags of a frame, and the calls of the user, move a stream through its states.
use n6bagent.Prelude.{ℕ, ◌≡◌, Bool, true, false, not, ◌&&◌, none, some, arith, if◌then◌else◌}
use n6bagent.Yamux.Const.{unexpected_flag, flag_ack, flag_fin, has_flag}
use n6bagent.Yamux.State.{
  Stream, StreamState, syn_sent, syn_received, established, local_close, remote_close, closed,
  reset,
}
use n6bagent.Yamux.Stream.Frames.{process}

-- The diagram of the moves that a frame of the peer can make; the last part says whether the
-- stream leaves the session's map.
pub data PeerMove : StreamState → StreamState → Bool → Type 0 where
  stay : {s : StreamState} → PeerMove s s false
  acked : PeerMove syn_sent established false
  half_syn_sent : PeerMove syn_sent remote_close false
  half_syn_received : PeerMove syn_received remote_close false
  half_established : PeerMove established remote_close false
  last_half : PeerMove local_close closed true
  aborted : {s : StreamState} → PeerMove s reset true

ruleset moves =
    (stay, acked, half_syn_sent, half_syn_received, half_established, last_half, aborted)

-- Whatever its flags, a frame moves a stream along the diagram, and leaves its identifier, its
-- windows and its data as they were.
pub process-PeerMove :
    (fl : ℕ) (st : Stream)
    → let p = process fl st in
      PeerMove st.state p.stream.state p.removed
      × (p.stream.id ≡ st.id)
      × (p.stream.recv_window ≡ st.recv_window)
      × (p.stream.send_window ≡ st.send_window)
      × (p.stream.recv_buf ≡ st.recv_buf)
unfolding process
process-PeerMove fl st = grind (arith, moves)

-- The states in which a FIN of the peer is expected.
abbrev pub can_finish : StreamState → Bool
can_finish syn_sent = true
can_finish syn_received = true
can_finish established = true
can_finish local_close = true
can_finish _ = false

abbrev pub refuses : ℕ → StreamState → Bool
refuses fl state = not (has_flag fl flag_ack) && has_flag fl flag_fin && not (can_finish state)

-- A frame is refused exactly when it has FIN and not ACK and the stream is in a state that
-- expects no FIN. A refused frame leaves the stream as it was, and in the map.
pub process_failure :
    (fl : ℕ) (st : Stream)
    → ((process fl st).failure ≡ (if refuses fl st.state then some unexpected_flag else none))
      × (refuses fl st.state ≡ true
          → ((process fl st).stream ≡ st) × ((process fl st).removed ≡ false))
unfolding process
process_failure fl st = ground arith

-- A frame with ACK is taken for nothing but an ACK: two of them do the same whatever FIN and RST
-- they have beside it, and the stream stays in the map.
pub process-ack_hides :
    (fl gl : ℕ) (st : Stream)
    → has_flag fl flag_ack ≡ true
    → has_flag gl flag_ack ≡ true
    → (process fl st ≡ process gl st) × ((process fl st).removed ≡ false)
unfolding process
process-ack_hides fl gl st h k = ground arith
