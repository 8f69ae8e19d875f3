-- ===== src/Yamux/Pipe/Flows.antt =====
-- What holds between the two ends of a stream at any time, and how Write and Read keep it.
use n6bagent.Prelude.{
  ℕ, ◌+◌, ◌-◌, ◌^◌, ◌≤◌, ◌<◌, ◌≡◌, ap, ap₂, sym, ◌∙◌, subst, true, inl, inr, Bool-cases, none, some,
  List, [], ◌∷◌, ◌++◌, append_assoc, All, length, length-append, length-take, take, arith,
  get_elem?, get_elem?-set, set, refl, ◌==◌,
}
use n6bagent.Prelude.Assoc.{lookup}
use n6bagent.Yamux.Const.{type_data, min}
use n6bagent.Yamux.Header.{Bytes, encode}
use n6bagent.Yamux.State.{Session, Stream, established, quiet}
use n6bagent.Yamux.Stream.Windows.{with_stream, queued}
use n6bagent.Yamux.Io.{done, write}
use n6bagent.Yamux.Io.Passing.{write_shut, write_open}
use n6bagent.Yamux.Pipe.{Ends, Pipe, Event, wrote, passive}
use n6bagent.Yamux.Pipe.Wire.{
  work, concat, sum, stream_bytes, data_bytes, update_bytes, concat-append, data-append,
  stream-queue,
}
use n6bagent.Yamux.Pipe.Fifo.{Fifo, put}

-- One end of the stream: it is established, and in the map under its identifier.
pub record End (s : Session) (ref id : ℕ) (st : Stream) : Type 0 where
  pub here : get_elem? s.store ref ≡ some st
  pub live : st.state ≡ established
  pub named : st.id ≡ id
  pub mapped : lookup id s.streams ≡ some ref

-- The end behind a change of the stream that keeps its state and identifier.
pub End-set :
    (s u : Session) (ref id : ℕ) (st st' : Stream)
    → End s ref id st
    → st'.state ≡ st.state
    → st'.id ≡ st.id
    → u.store ≡ set s.store ref st'
    → u.streams ≡ s.streams
    → End u ref id st'
End-set s u ref id st st' x state same store streams = record {
  here = rw store (get_elem?-set s.store ref st' st x.here);
  live = state ∙ x.live;
  named = same ∙ x.named;
  mapped = rw streams x.mapped;
}

-- What comes from the writer is data frames that are not empty, and what comes back is window
-- updates. The window of the writer, what is on its way to the reader and the updates that come
-- back make up the window of the reader, which is within the maximum. It is not shut while the
-- reader has nothing to take.
pub record Flows (k : Ends) (p : Pipe) : Type 0 where
  pub w : Stream
  pub r : Stream
  pub frames : List Bytes
  pub updates : List ℕ
  pub writing : End p.writer k.writing k.id w
  pub reading : End p.reader k.reading k.id r
  pub forth : stream_bytes p.writer p.reader ≡ data_bytes k.id frames
  pub back : stream_bytes p.reader p.writer ≡ update_bytes k.id updates
  pub full : All (λ b. 0 < length b) frames
  pub credit : w.send_window + (length (concat frames) + sum updates) ≡ r.recv_window
  pub bound : r.recv_window ≤ p.reader.config.max_stream_window_size
  pub small : p.reader.config.max_stream_window_size < 2 ^ 32
  pub some_window : 0 < p.reader.config.max_stream_window_size
  pub ajar : 0 < r.recv_window + length r.recv_buf
  pub id_fits : k.id < 2 ^ 32

-- The bytes that were written and not given yet: those in the reader's buffer, then those that are
-- on their way.
abbrev pub pending : {k : Ends} {p : Pipe} → Flows k p → Bytes
pending f = f.r.recv_buf ++ concat f.frames

abbrev pub left : {k : Ends} {p : Pipe} → Flows k p → ℕ
left {p} f = work p.writer p.reader f.r.recv_buf

-- A step leads to a pipe that holds the invariant too, as the queue of bytes does it, and there is
-- less left to do if it is no Write.
pub record Kept (k : Ends) (p : Pipe) (f : Flows k p) (e : Event) (q : Pipe) : Type 0 where
  pub next : Flows k q
  pub abstract : Fifo (pending f) (pending next) e
  pub less : passive e ≡ true → left next < left f

full-append :
    (bs : List Bytes) (b : Bytes)
    → All (λ c. 0 < length c) bs
    → 0 < length b
    → All (λ c. 0 < length c) (bs ++ b ∷ [])
full-append [] b all one = (one, tt)
full-append (c ∷ bs) b all one = (all.0, full-append bs b all.1 one)

module _ (k : Ends) (p : Pipe) (f : Flows k p) where
  write-Kept_open :
      (b : Bytes) (n : ℕ) (s : Session)
      → 0 < n
      → n ≤ length b
      → n ≤ f.w.send_window
      → s
        ≡ with_stream k.writing
            (record f.w { send_window = f.w.send_window - n })
            (queued (encode type_data 0 f.w.id n) (some (take n b)) p.writer)
      → Kept k p f (wrote (take n b)) (record p { writer = s })
  write-Kept_open b n s pos le room same =
      let b' : Bytes = take n b in
      let e : length b' ≡ n = length-take n b le in
      subst (λ (u : Session). Kept k p f (wrote b') (record p { writer = u })) (sym same)
        (record {
          next = record {
            w = record f.w { send_window = f.w.send_window - n };
            r = f.r;
            frames = f.frames ++ b' ∷ [];
            updates = f.updates;
            writing = End-set p.writer _ k.writing k.id f.w _ f.writing refl refl refl refl;
            reading = f.reading;
            forth =
                stream-queue p.writer p.reader
                  (record { hdr = encode type_data 0 f.w.id n; body = some b'; replies = true })
                  (data_bytes k.id f.frames) f.forth
                ∙ ap₂ (λ (i m : ℕ). data_bytes k.id f.frames ++ (encode type_data 0 i m ++ b'))
                    f.writing.named (sym e)
                ∙ sym (data-append k.id f.frames b');
            back = f.back;
            full = full-append f.frames b' f.full (omega arith);
            credit = omega (
              arith,
              f.credit,
              ap (λ (x : Bytes). length x) (concat-append f.frames b'),
              length-append (concat f.frames) b',
            );
            bound = f.bound;
            small = f.small;
            some_window = f.some_window;
            ajar = f.ajar;
            id_fits = f.id_fits;
          };
          abstract = put b' (
              ap (◌++◌ f.r.recv_buf) (concat-append f.frames b')
              ∙ sym (append_assoc f.r.recv_buf (concat f.frames) b'));
          less = λ active. absurd (ground arith);
        })

  pub write-Kept :
      (b : Bytes) (n : ℕ) (s : Session)
      → 0 < length b
      → write k.writing b quiet [] p.writer ≡ some (done n none, s)
      → Kept k p f (wrote (take n b)) (record p { writer = s })
  write-Kept b n s pos e = elim (Bool-cases (f.w.send_window == 0)) [
    | inl shut ↦
        let e' =
          write_shut k.writing p.writer f.w f.writing.here f.writing.live b
            (ground (arith, shut)) in
        cc
    | inr wide ↦
        let e' =
          write_open k.writing p.writer f.w f.writing.here f.writing.live b (ground (arith, wide))
            (omega (arith, f.credit, f.bound, f.small)) in
        let counted : n ≡ min f.w.send_window (length b) = cc in
        write-Kept_open b n s (ground (arith, wide, counted)) (ground (arith, counted))
          (ground (arith, counted)) cc
  ]
