-- ===== src/Yamux/Recv/Rounds.antt =====
-- What one round of recv does with a frame that `encode` wrote.
use n6bagent.Prelude.{
  ℕ, ◌-◌, ◌≤◌, ◌<◌, ◌^◌, ◌≡◌, ◌≢◌, refl, ◌∙◌, ◌⊎◌, inl, inr, Bool-cases, true, none, some, ◌++◌,
  length, length-append, arith, get_elem?, take, drop, take-append, drop-append, set-get_elem?, ltb,
}
use n6bagent.Prelude.Assoc.{lookup}
use n6bagent.Yamux.Const.{Error, invalid_version, type_data, header_size}
use n6bagent.Yamux.Header.{Bytes, encode, version, msg_type, flags, stream_id, payload_length}
use n6bagent.Yamux.Header.RoundTrip.{Fits, fields-encode}
use n6bagent.Yamux.State.{Session, Stream, Wait}
use n6bagent.Yamux.Stream.Frames.{process_flags, read_data, accept_payload}
use n6bagent.Yamux.Stream.Windows.{with_stream, accept_payload_ok}
use n6bagent.Yamux.Recv.{recv_round, dispatch, handle_stream_message, short_error}

pub take_header :
    (ty fl id len : ℕ) (rest : Bytes)
    → (take header_size (encode ty fl id len ++ rest) ≡ encode ty fl id len)
      × (drop header_size (encode ty fl id len ++ rest) ≡ rest)
      × (header_size ≤ length (encode ty fl id len ++ rest))
unfolding encode
take_header ty fl id len rest = (refl, refl, omega arith)

-- A round reads exactly the twelve bytes of the header, and acts on its fields.
pub recv_round_frame :
    (ty fl id len : ℕ) (rest : Bytes) (w v : Wait) (s : Session)
    → Fits ty fl id len
    → s.input ≡ encode ty fl id len ++ rest
    → recv_round w v s ≡ dispatch (encode ty fl id len) w v (record s { input = rest })
unfolding recv_round
recv_round_frame ty fl id len rest w v s f e =
    rw e (ground (arith, take_header ty fl id len rest, fields-encode ty fl id len f))

-- With no flags a stream is left as it was.
pub process_flags-none :
    (ref : ℕ) (s : Session) (st : Stream)
    → get_elem? s.store ref ≡ some st
    → process_flags ref 0 s ≡ some (none, s)
unfolding process_flags
process_flags-none ref s st here = ground (arith, here, set-get_elem? s.store ref st here)

-- A header with no flag for a stream in the map is handed to that stream.
data_frame :
    (hdr : Bytes) (n ref : ℕ) (w v : Wait) (s t : Session) (st : Stream)
    → msg_type hdr ≡ type_data
    → flags hdr ≡ 0
    → payload_length hdr ≡ n
    → lookup (stream_id hdr) s.streams ≡ some ref
    → get_elem? s.store ref ≡ some st
    → accept_payload ref n s ≡ some (none, t)
    → dispatch hdr w v s ≡ some (none, t)
unfolding dispatch handle_stream_message read_data
data_frame hdr n ref w v s t st ty fl len found here taken =
    rw (ty, fl) (ground (arith, ty, fl, len, found, taken, process_flags-none ref s st here))

-- A round whose input begins with a data frame of `b` for a stream in the map, with no flag and
-- within the window, takes the frame off the input and puts `b` at the end of the stream's buffer.
-- Its window shrinks by the length of `b`, a reader is woken, and the rest of the session stays.
pub recv_round_data :
    (id ref : ℕ) (b rest : Bytes) (w v : Wait) (s : Session) (st : Stream)
    → s.input ≡ encode type_data 0 id (length b) ++ (b ++ rest)
    → lookup id s.streams ≡ some ref
    → get_elem? s.store ref ≡ some st
    → id < 2 ^ 32
    → 0 < length b
    → length b ≤ st.recv_window
    → st.recv_window < 2 ^ 32
    → recv_round w v s
      ≡ some (
        none,
        with_stream ref
            (record st {
              recv_buf = st.recv_buf ++ b;
              recv_window = st.recv_window - length b;
              recv_notify = true;
            })
            (record s { input = rest }),
      )
recv_round_data id ref b rest w v s st e found here small pos room fits =
    let hdr : Bytes = encode type_data 0 id (length b) in
    let f : Fits type_data 0 id (length b) = record {
      type_fits = omega arith;
      flags_fit = omega arith;
      id_fits = small;
      length_fits = omega arith;
    } in
    let (vs, ty, fl, i, len) = fields-encode type_data 0 id (length b) f in
    recv_round_frame type_data 0 id (length b) (b ++ rest) w v s f e
    ∙ data_frame hdr (length b) ref w v (record s { input = b ++ rest }) _ st ty fl len (rw i found)
        here
        (rw (
          accept_payload_ok ref (record s { input = b ++ rest }) st here (length b) pos room fits
              (omega (arith, length-append b rest)),
          take-append b rest,
          drop-append b rest,
        ))

-- An input that ends inside a header, or has another version, ends the loop with an error.
pub recv_round_bad :
    (w v : Wait) (s : Session)
    → (length s.input < header_size) ⊎ (version (take header_size s.input) ≢ 0)
    → (e : Error) × (recv_round w v s
        ≡ some (some e, record s { input = drop header_size s.input }))
unfolding recv_round
recv_round_bad w v s (inl short) = (short_error s.input s.input_end, ground arith)
recv_round_bad w v s (inr other) = elim (Bool-cases (ltb (length s.input) header_size)) [
  | inl short ↦ (short_error s.input s.input_end, ground arith)
  | inr whole ↦ (invalid_version, ground arith)
]
