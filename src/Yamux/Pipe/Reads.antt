-- ===== src/Yamux/Pipe/Reads.antt =====
-- How Read at the reader's end keeps what holds between the two ends of a stream.
use n6bagent.Prelude.{
  ℕ, ◌+◌, ◌/◌, ◌%◌, ◌^◌, ◌<◌, ◌≡◌, refl, ap, sym, ◌∙◌, subst, ◌⊎◌, inl, inr, Bool-cases, true, none,
  some, [], ◌∷◌, ◌++◌, append-nil, append_assoc, length, length-drop, take, drop, take-append-drop,
  arith, ltb,
}
use n6bagent.Yamux.Const.{type_window_update}
use n6bagent.Yamux.Header.{Bytes, encode}
use n6bagent.Yamux.Header.RoundTrip.{encode-IsByte}
use n6bagent.Yamux.State.{Session, SendReady, Stream, quiet}
use n6bagent.Yamux.Stream.{sub_uint32}
use n6bagent.Yamux.Stream.Windows.{with_stream}
use n6bagent.Yamux.Io.{read}
use n6bagent.Yamux.Io.Passing.{read_empty, read_small, read_large, taken, announced}
use n6bagent.Yamux.Pipe.{Ends, Pipe, gave}
use n6bagent.Yamux.Pipe.Wire.{
  queue_size-append, concat, update_bytes, sum-append, update-append, stream-queue,
}
use n6bagent.Yamux.Pipe.Fifo.{get}
use n6bagent.Yamux.Pipe.Flows.{End-set, Flows, Kept}

pub empty_or_not : (b : Bytes) → (b ≡ []) ⊎ (0 < length b)
empty_or_not [] = inl refl
empty_or_not (x ∷ b) = inr (omega arith)

module _ (k : Ends) (p : Pipe) (f : Flows k p) where
  delta : ℕ
  delta = sub_uint32 p.reader.config.max_stream_window_size f.r.recv_window

  moved :
      (n : ℕ)
      → f.r.recv_buf ++ concat f.frames
        ≡ take n f.r.recv_buf ++ (drop n f.r.recv_buf ++ concat f.frames)
  moved n =
      sym (ap (λ (x : Bytes). x ++ concat f.frames) (take-append-drop n f.r.recv_buf))
      ∙ append_assoc (take n f.r.recv_buf) (drop n f.r.recv_buf) (concat f.frames)

  read-Kept_small :
      (n : ℕ) (s : Session)
      → 0 < n
      → 0 < length f.r.recv_buf
      → ltb delta (p.reader.config.max_stream_window_size / 2) ≡ true
      → s
        ≡ with_stream k.reading
            (taken k.reading p.reader f.r f.reading.here f.reading.live n)
            p.reader
      → Kept k p f (gave (take n f.r.recv_buf)) (record p { reader = s })
  unfolding delta
  read-Kept_small n s pos more little same =
      let left : Stream = taken k.reading p.reader f.r f.reading.here f.reading.live n in
      subst (λ (u : Session). Kept k p f (gave (take n f.r.recv_buf)) (record p { reader = u }))
        (sym same)
        (record {
          next = record {
            w = f.w;
            r = left;
            frames = f.frames;
            updates = f.updates;
            writing = f.writing;
            reading = End-set p.reader _ k.reading k.id f.r left f.reading refl refl refl refl;
            forth = f.forth;
            back = f.back;
            full = f.full;
            credit = f.credit;
            bound = f.bound;
            small = f.small;
            some_window = f.some_window;
            ajar = ground (arith, little, f.bound, f.small);
            id_fits = f.id_fits;
          };
          abstract = get (take n f.r.recv_buf) (moved n);
          less = λ active. omega (arith, pos, more, length-drop n f.r.recv_buf);
        })

  read-Kept_large :
      (n : ℕ) (s : Session)
      → 0 < n
      → 0 < length f.r.recv_buf
      → s ≡ announced k.reading p.reader f.r f.reading.here f.reading.live n
      → Kept k p f (gave (take n f.r.recv_buf)) (record p { reader = s })
  read-Kept_large n s pos more same =
      let max : ℕ = p.reader.config.max_stream_window_size in
      let d : ℕ = sub_uint32 max f.r.recv_window in
      let whole : (f.r.recv_window + d) % 2 ^ 32 ≡ max = omega (arith, f.bound, f.small) in
      let topped : f.r.recv_window + d ≡ max = omega (arith, f.bound, f.small) in
      let update : SendReady = record {
        hdr = encode type_window_update 0 f.r.id d;
        body = none;
        replies = true;
      } in
      let size : length (encode type_window_update 0 f.r.id d ++ []) ≡ 12 =
        ap (λ (x : Bytes). length x) (append-nil (encode type_window_update 0 f.r.id d))
        ∙ (encode-IsByte type_window_update 0 f.r.id d (omega arith)).0 in
      let left : Stream = record f.r {
        recv_buf = drop n f.r.recv_buf;
        recv_notify = true;
        recv_window = (f.r.recv_window + d) % 2 ^ 32;
      } in
      subst (λ (u : Session). Kept k p f (gave (take n f.r.recv_buf)) (record p { reader = u }))
        (sym same)
        (record {
          next = record {
            w = f.w;
            r = left;
            frames = f.frames;
            updates = f.updates ++ d ∷ [];
            writing = f.writing;
            reading = End-set p.reader _ k.reading k.id f.r left f.reading refl refl refl refl;
            forth = f.forth;
            back =
                stream-queue p.reader p.writer update (update_bytes k.id f.updates) f.back
                ∙ ap (◌++◌ (update_bytes k.id f.updates))
                    (append-nil (encode type_window_update 0 f.r.id d))
                ∙ ap (λ (i : ℕ). update_bytes k.id f.updates ++ encode type_window_update 0 i d)
                    f.reading.named
                ∙ sym (update-append k.id f.updates d);
            full = f.full;
            credit = omega (arith, f.credit, whole, topped, sum-append f.updates d);
            bound = omega (arith, whole);
            small = f.small;
            some_window = f.some_window;
            ajar = omega (arith, whole, f.some_window);
            id_fits = f.id_fits;
          };
          abstract = get (take n f.r.recv_buf) (moved n);
          less = λ active. omega (
            arith,
            pos,
            more,
            length-drop n f.r.recv_buf,
            queue_size-append p.reader.send_ch update,
            size,
          );
        })

  pub read-Kept :
      (n : ℕ) (bs : Bytes) (s : Session)
      → 0 < n
      → read k.reading n quiet [] p.reader ≡ some (some (bs, none), s)
      → Kept k p f (gave bs) (record p { reader = s })
  unfolding delta
  read-Kept n bs s pos e = elim (empty_or_not f.r.recv_buf) [
    | inl bare ↦
        let e' = read_empty k.reading p.reader f.r f.reading.here f.reading.live n bare in cc
    | inr more ↦ elim (Bool-cases (ltb delta (p.reader.config.max_stream_window_size / 2))) [
      | inl little ↦
          let e' = read_small k.reading p.reader f.r f.reading.here f.reading.live n more little in
          let given : take n f.r.recv_buf ≡ bs = cc in
          subst (λ (x : Bytes). Kept k p f (gave x) (record p { reader = s })) given
            (read-Kept_small n s pos more little cc)
      | inr large ↦
          let e' = read_large k.reading p.reader f.r f.reading.here f.reading.live n more large in
          let given : take n f.r.recv_buf ≡ bs = cc in
          subst (λ (x : Bytes). Kept k p f (gave x) (record p { reader = s })) given
            (read-Kept_large n s pos more cc)
    ]
  ]
