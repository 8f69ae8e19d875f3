-- ===== src/Yamux/Pipe/Rounds.antt =====
-- What a round of recv does at either end: it takes the next frame, without an error.
use n6bagent.Prelude.{
  ℕ, ◌+◌, ◌-◌, ◌^◌, ◌≤◌, ◌<◌, ◌≡◌, refl, ap, sym, ◌∙◌, subst, inl, inr, true, none, some, List, ◌∷◌,
  ◌++◌, append_assoc, All, length, length-append, arith,
}
use n6bagent.Yamux.Const.{type_data, type_window_update}
use n6bagent.Yamux.Header.{Bytes, encode}
use n6bagent.Yamux.Header.RoundTrip.{encode-IsByte}
use n6bagent.Yamux.State.{Session, Stream, Wait}
use n6bagent.Yamux.Stream.Windows.{with_stream}
use n6bagent.Yamux.Recv.{recv_round}
use n6bagent.Yamux.Recv.Rounds.{recv_round_data}
use n6bagent.Yamux.Recv.Updates.{recv_round_update, widened}
use n6bagent.Yamux.Pipe.{Ends, Pipe, silent, HasFrame, Turn, send, recv}
use n6bagent.Yamux.Pipe.Wire.{concat, sum, data_bytes, update_bytes, queue_bytes}
use n6bagent.Yamux.Pipe.Fifo.{skip}
use n6bagent.Yamux.Pipe.Flows.{End-set, Flows, Kept}
use n6bagent.Yamux.Pipe.Turns.{
  List-cases, data_first, update_first, no_frame, writer_send-Kept, reader_send-Kept,
}

-- A round of recv that ends with no error, and keeps what holds.
abbrev pub Received : (k : Ends) (p : Pipe) → Flows k p → (Session → Pipe) → Session → Type 0
Received k p f at s =
    (w v : Wait) → (u : Session) × (recv_round w v s ≡ some (none, u)) × Kept k p f silent (at u)

module _ (k : Ends) (p : Pipe) (f : Flows k p) where
  pub frame_room :
      (b : Bytes) (bs : List Bytes)
      → f.frames ≡ b ∷ bs
      → (length b ≤ f.r.recv_window)
        × (length (concat f.frames) ≡ length b + length (concat bs))
        × (length b < 2 ^ 32)
  frame_room b bs e =
      let counted : length (concat f.frames) ≡ length b + length (concat bs) =
        ap (λ (x : List Bytes). length (concat x)) e ∙ length-append b (concat bs) in
      let room : length b ≤ f.r.recv_window = omega (arith, f.credit, counted) in
      (room, counted, omega (arith, room, f.bound, f.small))

  data_round :
      (b : Bytes) (bs : List Bytes)
      → f.frames ≡ b ∷ bs
      → HasFrame p.reader.input
      → Received k p f (λ u. record p { reader = u }) p.reader
  data_round b bs e whole w v =
      let c : Bytes = p.writer.output ++ queue_bytes p.writer.send_ch in
      let hdr : Bytes = encode type_data 0 k.id (length b) in
      let full : All (λ x. 0 < length x) (b ∷ bs) = subst (All (λ x. 0 < length x)) e f.full in
      let (room, counted, short) = frame_room b bs e in
      let (rest, here, left) =
        data_first k.id p.reader.input c b (data_bytes k.id bs) whole f.id_fits short
          (f.forth ∙ ap (data_bytes k.id) e) in
      let filled : Stream = record f.r {
        recv_buf = f.r.recv_buf ++ b;
        recv_window = f.r.recv_window - length b;
        recv_notify = true;
      } in
      let size = (encode-IsByte type_data 0 k.id (length b) (omega arith)).0 in
      let u : Session = with_stream k.reading filled (record p.reader { input = rest }) in
      (
        u,
        recv_round_data k.id k.reading b rest w v p.reader f.r here f.reading.mapped f.reading.here
            f.id_fits full.0 room (omega (arith, f.bound, f.small)),
        record {
          next = record {
            w = f.w;
            r = filled;
            frames = bs;
            updates = f.updates;
            writing = f.writing;
            reading = End-set p.reader _ k.reading k.id f.r filled f.reading refl refl refl refl;
            forth = left;
            back = f.back;
            full = full.1;
            credit = omega (arith, f.credit, counted);
            bound = omega (arith, f.bound);
            small = f.small;
            some_window = f.some_window;
            ajar = omega (arith, full.0, length-append f.r.recv_buf b);
            id_fits = f.id_fits;
          };
          abstract = skip (
              ap (λ (x : List Bytes). f.r.recv_buf ++ concat x) e
              ∙ sym (append_assoc f.r.recv_buf b (concat bs)));
          less = λ active. omega (
            arith,
            size,
            ap (λ (x : Bytes). length x) here,
            length-append hdr (b ++ rest),
            length-append b rest,
            length-append f.r.recv_buf b,
          );
        },
      )

  update_round :
      (n : ℕ) (ns : List ℕ)
      → f.updates ≡ n ∷ ns
      → HasFrame p.writer.input
      → Received k p f (λ u. record p { writer = u }) p.writer
  update_round n ns e whole w v =
      let c : Bytes = p.reader.output ++ queue_bytes p.reader.send_ch in
      let hdr : Bytes = encode type_window_update 0 k.id n in
      let counted : sum f.updates ≡ n + sum ns = ap sum e in
      let (rest, here, left) =
        update_first k.id n p.writer.input c (update_bytes k.id ns) whole
          (f.back ∙ ap (update_bytes k.id) e) in
      let size = (encode-IsByte type_window_update 0 k.id n (omega arith)).0 in
      let wide : Stream = widened n f.w in
      let u : Session = with_stream k.writing wide (record p.writer { input = rest }) in
      (
        u,
        recv_round_update k.id k.writing n rest w v p.writer f.w here f.writing.mapped
            f.writing.here f.id_fits (omega (arith, f.credit, counted, f.bound, f.small)),
        record {
          next = record {
            w = wide;
            r = f.r;
            frames = f.frames;
            updates = ns;
            writing = End-set p.writer _ k.writing k.id f.w wide f.writing refl refl refl refl;
            reading = f.reading;
            forth = f.forth;
            back = left;
            full = f.full;
            credit = omega (arith, f.credit, counted);
            bound = f.bound;
            small = f.small;
            some_window = f.some_window;
            ajar = f.ajar;
            id_fits = f.id_fits;
          };
          abstract = skip refl;
          less = λ active.
              omega (arith, size, ap (λ (x : Bytes). length x) here, length-append hdr rest);
        },
      )

  pub reader_round :
      HasFrame p.reader.input → Received k p f (λ u. record p { reader = u }) p.reader
  reader_round whole = elim (List-cases f.frames) [
    | inl empty ↦
        no_frame p.reader.input (p.writer.output ++ queue_bytes p.writer.send_ch) whole
          (f.forth ∙ ap (data_bytes k.id) empty)
    | inr (b, bs, e) ↦ data_round b bs e whole
  ]

  pub writer_round :
      HasFrame p.writer.input → Received k p f (λ u. record p { writer = u }) p.writer
  writer_round whole = elim (List-cases f.updates) [
    | inl empty ↦
        no_frame p.writer.input (p.reader.output ++ queue_bytes p.reader.send_ch) whole
          (f.back ∙ ap (update_bytes k.id) empty)
    | inr (n, ns, e) ↦ update_round n ns e whole
  ]

  pub reader_turn-Kept :
      (s : Session) → Turn p.reader s → Kept k p f silent (record p { reader = s })
  reader_turn-Kept s (send ws c e) = reader_send-Kept k p f ws c s e
  reader_turn-Kept s (recv w v e whole ran) =
      let (u, same, kept) = reader_round whole w v in
      let reached : u ≡ s = cc in
      subst (λ (x : Session). Kept k p f silent (record p { reader = x })) reached kept

  pub writer_turn-Kept :
      (s : Session) → Turn p.writer s → Kept k p f silent (record p { writer = s })
  writer_turn-Kept s (send ws c e) = writer_send-Kept k p f ws c s e
  writer_turn-Kept s (recv w v e whole ran) =
      let (u, same, kept) = writer_round whole w v in
      let reached : u ≡ s = cc in
      subst (λ (x : Session). Kept k p f silent (record p { writer = x })) reached kept
