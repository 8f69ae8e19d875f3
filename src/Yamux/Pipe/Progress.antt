-- ===== src/Yamux/Pipe/Progress.antt =====
-- That what was written can always be read: some step is left until all has been given, and the
-- writer has a window again.
use n6bagent.Prelude.{
  ℕ, ◌≤◌, ◌<◌, ◌≡◌, refl, ap, ap₂, sym, ◌∙◌, subst, ◌⊎◌, inl, inr, Bool-cases, none, List, [], ◌∷◌,
  ◌++◌, append-nil, All, length, length-append, take, arith, ltb, ◌/◌, ◌^◌, true,
}
use n6bagent.Yamux.Const.{type_data, type_window_update}
use n6bagent.Yamux.Header.{Bytes, encode, msg_type}
use n6bagent.Yamux.Header.RoundTrip.{Fits, fields-encode, encode-IsByte}
use n6bagent.Yamux.State.{Session, SendReady, quiet}
use n6bagent.Yamux.Recv.Rounds.{take_header}
use n6bagent.Yamux.Io.Passing.{read_small, read_large}
use n6bagent.Yamux.Send.{ConnWrite}
use n6bagent.Yamux.Send.Wire.{Works, send_round_whole}
use n6bagent.Yamux.Stream.{sub_uint32}
use n6bagent.Yamux.Pipe.{
  Ends, Pipe, Event, gave, silent, passive, HasFrame, Turn, send, recv, Carried, Step, call_read,
  writer_turn, reader_turn, carry, carry_back,
}
use n6bagent.Yamux.Pipe.Wire.{concat, sum, stream_bytes, data_bytes, update_bytes, queue_bytes}
use n6bagent.Yamux.Pipe.Flows.{Flows, pending}
use n6bagent.Yamux.Pipe.Reads.{empty_or_not}
use n6bagent.Yamux.Pipe.Turns.{List-cases}
use n6bagent.Yamux.Pipe.Rounds.{frame_room, reader_round, writer_round}

-- A connection that takes one byte at a time.
ones : Bytes → List ConnWrite
ones [] = []
ones (x ∷ b) = record { taken = 1; failure = none } ∷ ones b

ones-Works : (b : Bytes) → All Works (ones b) × (length b ≤ length (ones b))
unfolding ones
ones-Works [] = (tt, omega arith)
ones-Works (x ∷ b) = let (all, le) = ones-Works b in (((omega arith, refl), all), omega (arith, le))

can_send :
    (s : Session) (r : SendReady) (rest : List SendReady)
    → s.send_ch ≡ r ∷ rest
    → (u : Session) × Turn s u
can_send s r rest e =
    let (all, le) = ones-Works r.hdr in
    let c : ConnWrite = record { taken = 0; failure = none } in
    (_, send (ones r.hdr) c (send_round_whole (ones r.hdr) c s r rest e all le refl))

can_carry : (s t : Session) → 0 < length s.output → (s' t' : Session) × Carried s t s' t'
can_carry s t pos = (
  _,
  _,
  record {
    moved = s.output;
    left = [];
    some_bytes = pos;
    from = sym (append-nil s.output);
    sent = refl;
    arrived = refl;
  },
)

data_frame :
    (id : ℕ) (b rest : Bytes)
    → id < 2 ^ 32
    → length b < 2 ^ 32
    → HasFrame (encode type_data 0 id (length b) ++ (b ++ rest))
data_frame id b rest small short =
    let hdr : Bytes = encode type_data 0 id (length b) in
    let f : Fits type_data 0 id (length b) = record {
      type_fits = omega arith;
      flags_fit = omega arith;
      id_fits = small;
      length_fits = short;
    } in
    let (vs, ty, fl, i, len) = fields-encode type_data 0 id (length b) f in
    let size = (encode-IsByte type_data 0 id (length b) (omega arith)).0 in
    rw (take_header type_data 0 id (length b) (b ++ rest)).0
      (ground (arith, ty, len, size, length-append hdr (b ++ rest), length-append b rest))

update_type : (id n : ℕ) → msg_type (encode type_window_update 0 id n) ≡ type_window_update
unfolding encode msg_type
update_type id n = omega arith

update_frame : (id n : ℕ) (rest : Bytes) → HasFrame (encode type_window_update 0 id n ++ rest)
update_frame id n rest =
    let ty = update_type id n in
    let (head, tail, le) = take_header type_window_update 0 id n rest in
    rw head (ground (arith, ty, le))

all_arrived :
    (s t : Session) (b : Bytes)
    → s.send_ch ≡ []
    → s.output ≡ []
    → stream_bytes s t ≡ b
    → t.input ≡ b
all_arrived s t b sent moved all =
    sym (append-nil t.input)
    ∙ ap₂ (λ (o : Bytes) (q : List SendReady). t.input ++ (o ++ queue_bytes q)) (sym moved)
        (sym sent)
    ∙ all

-- A step that is not a Write.
abbrev pub Enabled : Ends → Pipe → Type 0
Enabled k p = (e : Event) × (q : Pipe) × Step k p e q × (passive e ≡ true)

module _ (k : Ends) (p : Pipe) (f : Flows k p) where
  forward : Enabled k p ⊎ (f.frames ≡ [])
  forward = elim (List-cases p.writer.send_ch) [
    | inr (r, rest, e) ↦
        let (u, turn) = can_send p.writer r rest e in inl (silent, _, writer_turn u turn, refl)
    | inl sent ↦ elim (empty_or_not p.writer.output) [
      | inr more ↦
          let (s, t, c) = can_carry p.writer p.reader more in inl (silent, _, carry s t c, refl)
      | inl moved ↦ elim (List-cases f.frames) [
        | inl empty ↦ inr empty
        | inr (b, bs, e) ↦
            let here =
              all_arrived p.writer p.reader _ sent moved (f.forth ∙ ap (data_bytes k.id) e) in
            let whole : HasFrame p.reader.input =
              subst HasFrame (sym here)
                (data_frame k.id b (data_bytes k.id bs) f.id_fits (frame_room k p f b bs e).2) in
            let (u, ran, kept) = reader_round k p f whole quiet quiet in
            inl (silent, _, reader_turn u (recv quiet quiet none whole ran), refl)
      ]
    ]
  ]

  backward : Enabled k p ⊎ (f.updates ≡ [])
  backward = elim (List-cases p.reader.send_ch) [
    | inr (r, rest, e) ↦
        let (u, turn) = can_send p.reader r rest e in inl (silent, _, reader_turn u turn, refl)
    | inl sent ↦ elim (empty_or_not p.reader.output) [
      | inr more ↦
          let (t, s, c) = can_carry p.reader p.writer more in
          inl (silent, _, carry_back s t c, refl)
      | inl moved ↦ elim (List-cases f.updates) [
        | inl empty ↦ inr empty
        | inr (n, ns, e) ↦
            let here =
              all_arrived p.reader p.writer _ sent moved (f.back ∙ ap (update_bytes k.id) e) in
            let whole : HasFrame p.writer.input =
              subst HasFrame (sym here) (update_frame k.id n (update_bytes k.id ns)) in
            let (u, ran, kept) = writer_round k p f whole quiet quiet in
            inl (silent, _, writer_turn u (recv quiet quiet none whole ran), refl)
      ]
    ]
  ]

  delta : ℕ
  delta = sub_uint32 p.reader.config.max_stream_window_size f.r.recv_window

  reading : Enabled k p ⊎ (f.r.recv_buf ≡ [])
  unfolding delta
  reading = elim (empty_or_not f.r.recv_buf) [
    | inl empty ↦ inr empty
    | inr more ↦ elim (Bool-cases (ltb delta (p.reader.config.max_stream_window_size / 2))) [
      | inl little ↦ inl (
        gave (take 1 f.r.recv_buf),
        _,
        call_read 1 _ _ (omega arith)
            (read_small k.reading p.reader f.r f.reading.here f.reading.live 1 more little),
        refl,
      )
      | inr large ↦ inl (
        gave (take 1 f.r.recv_buf),
        _,
        call_read 1 _ _ (omega arith)
            (read_large k.reading p.reader f.r f.reading.here f.reading.live 1 more large),
        refl,
      )
    ]
  ]

  -- Either something is left to do without the writer's caller, or all has been given and the
  -- writer has a window.
  pub progress : Enabled k p ⊎ ((pending f ≡ []) × (0 < f.w.send_window))
  progress = elim forward [
    | inl go ↦ inl go
    | inr none_coming ↦ elim reading [
      | inl go ↦ inl go
      | inr none_kept ↦ elim backward [
        | inl go ↦ inl go
        | inr none_back ↦ inr (
          ap₂ (λ (x : Bytes) (y : List Bytes). x ++ concat y) none_kept none_coming,
          omega (
            arith,
            f.credit,
            f.ajar,
            ap (λ (x : List Bytes). length (concat x)) none_coming,
            ap sum none_back,
            ap (λ (x : Bytes). length x) none_kept,
          ),
        )
      ]
    ]
  ]
