-- ===== src/Websocket/Codec/Messages.antt =====
-- What a server receives is what a client has sent.
use n6bagent.Prelude.{
  ℕ, suc, ◌^◌, ◌<◌, ◌≡◌, ◌⊎◌, refl, ap, sym, ◌∙◌, true, false, none, some, ◌++◌, length, take, drop,
  take-append, drop-append, length-append, leb, All, arith,
}
use n6bagent.Websocket.Base.{eof, text_frame, binary_frame}
use n6bagent.Websocket.Frame.{Bytes, masked}
use n6bagent.Websocket.Frame.Header.{wire, encode_frame-wire}
use n6bagent.Websocket.Frame.Masking.{IsByte, masked-masked, length-masked}
use n6bagent.Websocket.Conn.{Conn, FrameReader, Out, random_key, data_header, write_frame, unmask}
use n6bagent.Websocket.Conn.Handler.{to_read, next_frame}
use n6bagent.Websocket.Conn.Delivery.{next_frame_data, header_of}
use n6bagent.Websocket.Codec.{
  Codec, marshalled, read_all, send, receive, receive_loop, discard_frame,
}

read_all-masked :
    (op : ℕ) (msg k rest : Bytes) (c : Conn)
    → All IsByte k
    → All IsByte msg
    → c.input ≡ masked k 0 msg ++ rest
    → read_all (record { header = header_of op k msg; remaining = length msg; pos = 0 }) c
      ≡ ((msg, none), record c { input = rest })
unfolding read_all
read_all-masked op msg k rest c ks ms e =
    let hidden = masked k 0 msg in
    let long : length msg ≡ length hidden = sym (length-masked k 0 msg) in
    let clear : masked k 0 (take (length msg) (hidden ++ rest)) ≡ msg =
      ap (λ (i : ℕ). masked k 0 (take i (hidden ++ rest))) long
      ∙ ap (masked k 0) (take-append hidden rest)
      ∙ masked-masked k 0 msg ks ms in
    let left : drop (length msg) (hidden ++ rest) ≡ rest =
      ap (λ (i : ℕ). drop i (hidden ++ rest)) long ∙ drop-append hidden rest in
    let all : leb (length msg) (length (hidden ++ rest)) ≡ true =
      ground (arith, long, length-append hidden rest) in
    rw (e, clear, left, all) refl

module _ {ℓ κ} {V : Type ℓ} {W : Type κ} (cd : Codec V W) where
  send-wire :
      (v : V) (op : ℕ) (msg k : Bytes) (out : Out) (c : Conn)
      → cd.marshal v ≡ marshalled msg op
      → c.is_server ≡ false
      → out.random ≡ random_key k
      → out.flush ≡ none
      → length k ≡ 4
      → send cd v out c
        ≡ (record c { output = c.output ++ wire (data_header op (some k)) msg }, none)
  unfolding send write_frame
  send-wire v op msg k out c made client rand ok four =
      ground (arith, made, encode_frame-wire (data_header op (some k)) msg four)

  receive-wire :
      (op : ℕ) (msg k rest : Bytes) (fuel : ℕ) (outs : ℕ → Out) (d : Conn)
      → (op ≡ text_frame) ⊎ (op ≡ binary_frame)
      → length k ≡ 4
      → All IsByte k
      → All IsByte msg
      → length msg < 2 ^ 63
      → d.is_server ≡ true
      → d.frame ≡ none
      → d.input ≡ wire (data_header op (some k)) msg ++ rest
      → receive cd (suc fuel) outs d
        ≡ (record d { input = rest; handler_type = op }, some (cd.unmarshal msg op))
  unfolding receive discard_frame receive_loop
  receive-wire op msg k rest fuel outs d type four ks ms fits srv bare e =
      let c : Conn = record d { input = masked k 0 msg ++ rest; handler_type = op } in
      ground (
        arith,
        bare,
        next_frame_data op msg k rest (outs fuel) d type four fits srv e,
        read_all-masked op msg k rest c ks ms refl,
      )

  -- A client's Send of a value that is marshalled to a text or binary message, under a key of four
  -- bytes and with a flush that works, has no error; and a server that has no frame at hand and whose
  -- input begins with what was put out receives what is unmarshalled of the same bytes and the same
  -- type, and keeps what follows.
  pub receive-send :
      (v : V) (op : ℕ) (msg k rest : Bytes) (out : Out) (fuel : ℕ) (outs : ℕ → Out) (c d : Conn)
      → cd.marshal v ≡ marshalled msg op
      → (op ≡ text_frame) ⊎ (op ≡ binary_frame)
      → length k ≡ 4
      → All IsByte k
      → All IsByte msg
      → length msg < 2 ^ 63
      → c.is_server ≡ false
      → out.random ≡ random_key k
      → out.flush ≡ none
      → d.is_server ≡ true
      → d.frame ≡ none
      → d.input ≡ drop (length c.output) (send cd v out c).0.output ++ rest
      → ((send cd v out c).1 ≡ none)
        × (receive cd (suc fuel) outs d
            ≡ (record d { input = rest; handler_type = op }, some (cd.unmarshal msg op)))
  receive-send v op msg k rest out fuel outs c d made type four ks ms fits client rand ok srv bare
        e =
      let sent = send-wire v op msg k out c made client rand ok four in
      let w = wire (data_header op (some k)) msg in
      (
        ap (λ x. x.1) sent,
        receive-wire op msg k rest fuel outs d type four ks ms fits srv bare (
            e
            ∙ ap (λ x. drop (length c.output) x.0.output ++ rest) sent
            ∙ ap (λ (bs : Bytes). bs ++ rest) (drop-append c.output w)),
      )

  -- A message whose connection ends in the middle of it, by io.EOF, is received as if it were whole:
  -- what there is of it is unmarshalled.
  pub receive_truncated :
      (fuel : ℕ) (outs : ℕ → Out) (d c : Conn) (f : FrameReader)
      → d.frame ≡ none
      → next_frame (outs fuel) d ≡ (c, to_read f)
      → length c.input < f.remaining
      → c.input_end ≡ eof
      → (receive cd (suc fuel) outs d).1
        ≡ some (
            cd.unmarshal
              (unmask f.header.masking_key f.pos (take f.remaining c.input))
              f.header.op_code)
  unfolding receive discard_frame receive_loop read_all
  receive_truncated fuel outs d c f bare next short e = ground (arith, bare, next, short, e)
