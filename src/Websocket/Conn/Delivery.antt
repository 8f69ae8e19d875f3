-- ===== src/Websocket/Conn/Delivery.antt =====
-- What a client writes is what a server reads.
use n6bagent.Prelude.{
  ℕ, zero, suc, ◌+◌, ◌-◌, ◌%◌, ◌^◌, ◌≤◌, ◌<◌, ◌≡◌, ◌⊎◌, refl, ap, ◌∙◌, true, false, Option, none,
  some, [], ◌∷◌, ◌++◌, length, take, drop, take-append, length-drop, length-append, length-take,
  All, arith, min, bit_xor, get_or,
}
use n6bagent.Websocket.Base.{text_frame, binary_frame}
use n6bagent.Websocket.Frame.{Bytes, FrameHeader, masked}
use n6bagent.Websocket.Frame.Header.{wire, encode_frame-wire, read_header-wire}
use n6bagent.Websocket.Frame.Masking.{IsByte, masked-masked, length-masked}
use n6bagent.Websocket.Conn.{
  Conn, FrameReader, Out, random_key, bytes, frame_read, data_header, write, write_frame, unmask,
}
use n6bagent.Websocket.Conn.Handler.{to_read, next_frame, by_type}
use n6bagent.Websocket.Conn.Reading.{Turn, read_bytes, read, read_from, after_frame, after_read}

-- A mask over the first bytes, and over those behind them.
take-masked :
    (key : Bytes) (pos m : ℕ) (msg rest : Bytes)
    → m ≤ length msg
    → take m (masked key pos msg ++ rest) ≡ masked key pos (take m msg)
unfolding masked
take-masked key pos zero msg rest le = refl
take-masked key pos (suc m) [] rest le = absurd (omega arith)
take-masked key pos (suc m) (x ∷ msg) rest le =
    ap (λ (zs : Bytes). bit_xor x (get_or key (pos % 4) 0) ∷ zs)
      (take-masked key (pos + 1) m msg rest (omega arith))

drop-masked :
    (key : Bytes) (pos m : ℕ) (msg rest : Bytes)
    → m ≤ length msg
    → drop m (masked key pos msg ++ rest) ≡ masked key (pos + m) (drop m msg) ++ rest
unfolding masked
drop-masked key pos zero msg rest le = ap (λ (p : ℕ). masked key p msg ++ rest) (omega arith)
drop-masked key pos (suc m) [] rest le = absurd (omega arith)
drop-masked key pos (suc m) (x ∷ msg) rest le =
    drop-masked key (pos + 1) m msg rest (omega arith)
    ∙ ap (λ (p : ℕ). masked key p (drop m msg) ++ rest) (omega arith)

All-take : (m : ℕ) (bs : Bytes) → All IsByte bs → All IsByte (take m bs)
All-take zero bs all = tt
All-take (suc m) [] all = tt
All-take (suc m) (b ∷ bs) all = (all.0, All-take m bs all.1)

All-drop : (m : ℕ) (bs : Bytes) → All IsByte bs → All IsByte (drop m bs)
All-drop zero bs all = all
All-drop (suc m) [] all = tt
All-drop (suc m) (b ∷ bs) all = All-drop m bs all.1

-- The bytes of the current frame that are still to be read, without their mask.
abbrev pub pending : Conn → Option FrameReader → Bytes
pending c none = []
pending c (some f) = unmask f.header.masking_key f.pos (take f.remaining c.input)

-- A client's Write whose flush does not fail sends one masked frame and counts all bytes.
pub write_masked :
    (msg k : Bytes) (out : Out) (c : Conn)
    → c.is_server ≡ false
    → out.random ≡ random_key k
    → length k ≡ 4
    → out.flush ≡ none
    → write msg out c ≡ (
      record c { output = c.output ++ wire (data_header c.payload_type (some k)) msg },
      (length msg, none),
    )
unfolding write write_frame
write_masked msg k out c client rand four ok =
    ground (arith, encode_frame-wire (data_header c.payload_type (some k)) msg four)

-- A frame reader in the middle of nothing: the header of a masked frame of `msg`.
abbrev pub header_of : ℕ → Bytes → Bytes → FrameHeader
header_of op k msg = record (data_header op (some k)) { length_field = length msg }

pub next_frame_data :
    (op : ℕ) (msg k rest : Bytes) (out : Out) (d : Conn)
    → (op ≡ text_frame) ⊎ (op ≡ binary_frame)
    → length k ≡ 4
    → length msg < 2 ^ 63
    → d.is_server ≡ true
    → d.input ≡ wire (data_header op (some k)) msg ++ rest
    → next_frame out d ≡ (
      record d { input = masked k 0 msg ++ rest; handler_type = op },
      to_read (record { header = header_of op k msg; remaining = length msg; pos = 0 }),
    )
unfolding next_frame by_type
next_frame_data op msg k rest out d type four fits srv e = rw e (
    rw (read_header-wire (data_header op (some k)) msg rest d.input_end (ground arith) fits four)
      (ground arith))

frame_read-masked :
    (n g : ℕ) (k : Bytes) (f : FrameReader) (c : Conn)
    → f.header.masking_key ≡ some k
    → 0 < f.remaining
    → 0 < length c.input
    → let m = min g (min n f.remaining) in
      frame_read n g f c ≡ (
        record c {
          input = drop m c.input;
          frame = some (record f {
            remaining = f.remaining - length (take m c.input);
            pos = f.pos + length (take m c.input);
          });
        },
        bytes (masked k f.pos (take m c.input)),
      )
unfolding frame_read
frame_read-masked n g k f c key more some_input = ground (arith, key)

read_first :
    (fuel n : ℕ) (turns : ℕ → Turn) (d c : Conn) (f : FrameReader) (e : Conn) (bs : Bytes)
    → d.frame ≡ none
    → next_frame (turns fuel).out d ≡ (c, to_read f)
    → frame_read n (turns fuel).gives f (record c { frame = some f }) ≡ (e, bytes bs)
    → read (suc fuel) n turns d ≡ (e, read_bytes (bytes bs))
unfolding read read_from after_frame after_read
read_first fuel n turns d c f e bs none_yet next took = ground (arith, none_yet, next, took)

pending_rest :
    (k msg rest : Bytes) (m q : ℕ)
    → m ≤ length msg
    → q ≡ m
    → All IsByte k
    → All IsByte msg
    → masked k (0 + q) (take (length msg - q) (drop m (masked k 0 msg ++ rest))) ≡ drop m msg
pending_rest k msg rest m q le e ks ms =
    let tail : Bytes = masked k (0 + m) (drop m msg) in
    let size : length msg - m ≡ length tail =
      omega (arith, length-masked k (0 + m) (drop m msg), length-drop m msg) in
    rw (e, drop-masked k 0 m msg rest le, size, take-append tail rest)
      (masked-masked k (0 + m) (drop m msg) ks (All-drop m msg ms))

-- A server with no frame at hand, whose input begins with what a client wrote as a text or binary
-- frame of one byte or more under a key of four bytes, reads the first bytes of the message as written, without the mask: as
-- many as it asks for, the connection gives, and there are. The rest of the message is pending.
pub read-write :
    (op : ℕ) (msg k rest : Bytes) (fuel n : ℕ) (turns : ℕ → Turn) (d : Conn)
    → (op ≡ text_frame) ⊎ (op ≡ binary_frame)
    → length k ≡ 4
    → All IsByte k
    → All IsByte msg
    → 0 < length msg
    → length msg < 2 ^ 63
    → d.is_server ≡ true
    → d.frame ≡ none
    → d.input ≡ wire (data_header op (some k)) msg ++ rest
    → let m = min (turns fuel).gives (min n (length msg)) in
      (e : Conn) × (read (suc fuel) n turns d ≡ (e, read_bytes (bytes (take m msg))))
      × (pending e e.frame ≡ drop m msg)
read-write op msg k rest fuel n turns d type four ks ms some_bytes fits srv no_frame e =
    let g = (turns fuel).gives in
    let m = min g (min n (length msg)) in
    let input : Bytes = masked k 0 msg ++ rest in
    let h : FrameHeader = header_of op k msg in
    let f : FrameReader = record { header = h; remaining = length msg; pos = 0 } in
    let c : Conn = record d { input = input; handler_type = op } in
    let small : m ≤ length msg = omega arith in
    let f' : FrameReader = record f {
      remaining = length msg - length (take m input);
      pos = 0 + length (take m input);
    } in
    let e' : Conn = record c { input = drop m input; frame = some f' } in
    let more : 0 < length input =
      omega (arith, length-append (masked k 0 msg) rest, length-masked k 0 msg) in
    let got_it : length (take m input) ≡ m =
      length-take m input
        (omega (arith, small, length-append (masked k 0 msg) rest, length-masked k 0 msg)) in
    let clear : masked k 0 (take m input) ≡ take m msg =
      rw (take-masked k 0 m msg rest small)
        (masked-masked k 0 (take m msg) ks (All-take m msg ms)) in
    (
      e',
      read_first fuel n turns d c f e' (take m msg) no_frame
          (next_frame_data op msg k rest (turns fuel).out d type four fits srv e)
          (frame_read-masked n g k f (record c { frame = some f }) refl some_bytes more
            ∙ ap (λ (bs : Bytes). (e', bytes bs)) clear),
      pending_rest k msg rest m (length (take m input)) small got_it ks ms,
    )
