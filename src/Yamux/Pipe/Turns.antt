-- ===== src/Yamux/Pipe/Turns.antt =====
-- How rounds of send and recv and the connection keep what holds between the two ends of a stream.
use n6bagent.Prelude.{
  ℕ, ◌+◌, ◌^◌, ◌<◌, ◌≡◌, refl, ap, sym, ◌∙◌, ◌⊎◌, inl, inr, true, none, some, List, [], ◌∷◌, ◌++◌,
  length, length-append, take, take-append, arith,
}
use n6bagent.Yamux.Const.{type_data, type_window_update, header_size}
use n6bagent.Yamux.Header.{Bytes, encode}
use n6bagent.Yamux.Header.RoundTrip.{Fits, fields-encode, encode-IsByte}
use n6bagent.Yamux.State.{Session, Stream}
use n6bagent.Yamux.Send.{ConnWrite, answers, send_round}
use n6bagent.Yamux.Send.Answered.{send_answered}
use n6bagent.Yamux.Pipe.{Ends, Pipe, silent, frame_size, HasFrame, Carried}
use n6bagent.Yamux.Pipe.Wire.{
  stream_bytes, data_bytes, update_bytes, stream-send, stream-carry, prefix_split, work, work-send,
  work-send_back, work-carry, work-carry_back,
}
use n6bagent.Yamux.Pipe.Fifo.{skip}
use n6bagent.Yamux.Pipe.Flows.{End, Flows, Kept, left}

pub List-cases {ℓ} :
    {A : Type ℓ} (xs : List A) → (xs ≡ []) ⊎ ((x : A) × (ys : List A) × (xs ≡ x ∷ ys))
List-cases [] = inl refl
List-cases (x ∷ ys) = inr (x, ys, refl)

-- The input begins with a whole header.
header_split :
    (ty id n : ℕ) (input c rest : Bytes)
    → HasFrame input
    → input ++ c ≡ encode ty 0 id n ++ rest
    → ty < 2 ^ 8
    → (r : Bytes) × (input ≡ encode ty 0 id n ++ r)
      × (r ++ c ≡ rest)
      × (take header_size input ≡ encode ty 0 id n)
header_split ty id n input c rest whole e small =
    let size = (encode-IsByte ty 0 id n small).0 in
    let (r, here, left) =
      prefix_split input c (encode ty 0 id n) rest e (omega (arith, size, whole)) in
    (
      r,
      here,
      left,
      ap (take header_size) here
          ∙ ap (λ (m : ℕ). take m (encode ty 0 id n ++ r)) (sym size)
          ∙ take-append (encode ty 0 id n) r,
    )

pub data_first :
    (id : ℕ) (input c b rest : Bytes)
    → HasFrame input
    → id < 2 ^ 32
    → length b < 2 ^ 32
    → input ++ c ≡ encode type_data 0 id (length b) ++ (b ++ rest)
    → (r : Bytes) × (input ≡ encode type_data 0 id (length b) ++ (b ++ r)) × (r ++ c ≡ rest)
data_first id input c b rest whole small short e =
    let hdr : Bytes = encode type_data 0 id (length b) in
    let f : Fits type_data 0 id (length b) = record {
      type_fits = omega arith;
      flags_fit = omega arith;
      id_fits = small;
      length_fits = short;
    } in
    let (vs, ty, fl, i, len) = fields-encode type_data 0 id (length b) f in
    let (r, here, left, head) =
      header_split type_data id (length b) input c (b ++ rest) whole e (omega arith) in
    let size = (encode-IsByte type_data 0 id (length b) (omega arith)).0 in
    let sized : frame_size input ≡ header_size + length b = rw head (ground (arith, ty, len)) in
    let counted : length input ≡ length hdr + length r =
      ap (λ (x : Bytes). length x) here ∙ length-append hdr r in
    let (r', here', left') =
      prefix_split r c b rest left (omega (arith, whole, sized, size, counted)) in
    (r', here ∙ ap (◌++◌ hdr) here', left')

pub update_first :
    (id n : ℕ) (input c rest : Bytes)
    → HasFrame input
    → input ++ c ≡ encode type_window_update 0 id n ++ rest
    → (r : Bytes) × (input ≡ encode type_window_update 0 id n ++ r) × (r ++ c ≡ rest)
update_first id n input c rest whole e =
    let (r, here, left, head) =
      header_split type_window_update id n input c rest whole e (omega arith) in
    (r, here, left)

pub no_frame : {P : Type 0} (input c : Bytes) → HasFrame input → input ++ c ≡ [] → P
no_frame input c whole e =
    let none_left : length (input ++ c) ≡ 0 = ap (λ (x : Bytes). length x) e in
    absurd (omega (arith, whole, none_left, length-append input c))

End-same :
    (s u : Session) (ref id : ℕ) (st : Stream)
    → End s ref id st
    → u.store ≡ s.store
    → u.streams ≡ s.streams
    → End u ref id st
End-same s u ref id st x store streams = record {
  here = rw store x.here;
  live = x.live;
  named = x.named;
  mapped = rw streams x.mapped;
}

module _ (k : Ends) (p : Pipe) (f : Flows k p) where
  -- A step that only moves bytes keeps all.
  rewired :
      (s t : Session)
      → s.store ≡ p.writer.store
      → s.streams ≡ p.writer.streams
      → t.store ≡ p.reader.store
      → t.streams ≡ p.reader.streams
      → t.config ≡ p.reader.config
      → stream_bytes s t ≡ data_bytes k.id f.frames
      → stream_bytes t s ≡ update_bytes k.id f.updates
      → work s t f.r.recv_buf < left f
      → Kept k p f silent (record { writer = s; reader = t })
  rewired s t store streams store' streams' config forth back less = record {
    next = record {
      w = f.w;
      r = f.r;
      frames = f.frames;
      updates = f.updates;
      writing = End-same p.writer s k.writing k.id f.w f.writing store streams;
      reading = End-same p.reader t k.reading k.id f.r f.reading store' streams';
      forth = forth;
      back = back;
      full = f.full;
      credit = f.credit;
      bound = rw config f.bound;
      small = rw config f.small;
      some_window = rw config f.some_window;
      ajar = f.ajar;
      id_fits = f.id_fits;
    };
    abstract = skip refl;
    less = λ active. less;
  }

  pub carry-Kept :
      (s t : Session)
      → Carried p.writer p.reader s t
      → Kept k p f silent (record { writer = s; reader = t })
  carry-Kept s t c =
      rewired s t (rw c.sent refl) (rw c.sent refl) (rw c.arrived refl) (rw c.arrived refl)
        (rw c.arrived refl)
        (rw (c.sent, c.arrived)
          (stream-carry p.writer p.reader c.moved c.left (data_bytes k.id f.frames) c.from f.forth))
        (rw (c.sent, c.arrived) f.back) (work-carry p.writer p.reader s t f.r.recv_buf c)

  pub carry_back-Kept :
      (s t : Session)
      → Carried p.reader p.writer t s
      → Kept k p f silent (record { writer = s; reader = t })
  carry_back-Kept s t c =
      rewired s t (rw c.arrived refl) (rw c.arrived refl) (rw c.sent refl) (rw c.sent refl)
        (rw c.sent refl) (rw (c.sent, c.arrived) f.forth)
        (rw (c.sent, c.arrived)
          (stream-carry p.reader p.writer c.moved c.left (update_bytes k.id f.updates) c.from
            f.back))
        (work-carry_back p.writer p.reader s t f.r.recv_buf c)

  pub writer_send-Kept :
      (ws : List ConnWrite) (c : ConnWrite) (s : Session)
      → send_round true ws c p.writer ≡ some (answers none, s)
      → Kept k p f silent (record p { writer = s })
  writer_send-Kept ws c s e =
      let (r, rest, q, same) = send_answered ws c p.writer s e in
      rewired s p.reader (rw same refl) (rw same refl) refl refl refl
        (rw same (stream-send p.writer p.reader r rest (data_bytes k.id f.frames) q f.forth))
        (rw same f.back) (rw same (work-send p.writer p.reader f.r.recv_buf r rest q))

  pub reader_send-Kept :
      (ws : List ConnWrite) (c : ConnWrite) (t : Session)
      → send_round true ws c p.reader ≡ some (answers none, t)
      → Kept k p f silent (record p { reader = t })
  reader_send-Kept ws c t e =
      let (r, rest, q, same) = send_answered ws c p.reader t e in
      rewired p.writer t refl refl (rw same refl) (rw same refl) (rw same refl) (rw same f.forth)
        (rw same (stream-send p.reader p.writer r rest (update_bytes k.id f.updates) q f.back))
        (rw same (work-send_back p.writer p.reader f.r.recv_buf r rest q))
