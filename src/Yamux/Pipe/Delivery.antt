-- ===== src/Yamux/Pipe/Delivery.antt =====
-- What every run of the two ends of a stream does, from the time when both are established.
use n6bagent.Prelude.{
  ℕ, ◌+◌, ◌^◌, ◌≤◌, ◌<◌, ◌≡◌, refl, subst, true, some, List, [], ◌++◌, All, arith, length,
  get_elem?,
}
use n6bagent.Yamux.Header.{Bytes}
use n6bagent.Yamux.State.{Session, Stream}
use n6bagent.Yamux.Pipe.{
  Ends, Pipe, Event, passive, Step, call_write, call_read, writer_turn, reader_turn, carry,
  carry_back, Runs, stop, then,
}
use n6bagent.Yamux.Pipe.Wire.{concat, stream_bytes}
use n6bagent.Yamux.Pipe.Fifo.{FifoRuns}
use n6bagent.Yamux.Pipe.Flows.{End, Flows, Kept, pending, left, write-Kept}
use n6bagent.Yamux.Pipe.Reads.{read-Kept}
use n6bagent.Yamux.Pipe.Turns.{carry-Kept, carry_back-Kept}
use n6bagent.Yamux.Pipe.Rounds.{reader_turn-Kept, writer_turn-Kept}

-- One end of a connection on which nothing is on its way.
pub record Idle (s : Session) : Type 0 where
  pub queue : s.send_ch ≡ []
  pub output : s.output ≡ []
  pub input : s.input ≡ []

-- Both ends of a stream are established, with one window at both and an empty buffer, and nothing is
-- on its way. The maximum of the reader's window is a uint32 that holds the window.
pub record Opened (k : Ends) (p : Pipe) : Type 0 where
  pub w : Stream
  pub r : Stream
  pub writing : End p.writer k.writing k.id w
  pub reading : End p.reader k.reading k.id r
  pub one_window : w.send_window ≡ r.recv_window
  pub wide : 0 < r.recv_window
  pub recv_buf : r.recv_buf ≡ []
  pub writer_idle : Idle p.writer
  pub reader_idle : Idle p.reader
  pub bound : r.recv_window ≤ p.reader.config.max_stream_window_size
  pub small : p.reader.config.max_stream_window_size < 2 ^ 32
  pub id_fits : k.id < 2 ^ 32

Idle-bytes : (s t : Session) → Idle s → Idle t → stream_bytes s t ≡ []
Idle-bytes s t x y = rw (x.queue, x.output, y.input) refl

start : (k : Ends) (p : Pipe) → Opened k p → Flows k p
start k p o = record {
  w = o.w;
  r = o.r;
  frames = [];
  updates = [];
  writing = o.writing;
  reading = o.reading;
  forth = Idle-bytes p.writer p.reader o.writer_idle o.reader_idle;
  back = Idle-bytes p.reader p.writer o.reader_idle o.writer_idle;
  full = tt;
  credit = omega (arith, o.one_window);
  bound = o.bound;
  small = o.small;
  some_window = omega (arith, o.wide, o.bound);
  ajar = omega (arith, o.wide);
  id_fits = o.id_fits;
}

pub Step-Kept :
    {k : Ends} {p q : Pipe} {e : Event} → Step k p e q → (f : Flows k p) → Kept k p f e q
Step-Kept {k} {p} (call_write b n s pos ran) f = write-Kept k p f b n s pos ran
Step-Kept {k} {p} (call_read n bs s pos ran) f = read-Kept k p f n bs s pos ran
Step-Kept {k} {p} (writer_turn s t) f = writer_turn-Kept k p f s t
Step-Kept {k} {p} (reader_turn s t) f = reader_turn-Kept k p f s t
Step-Kept {k} {p} (carry s t c) f = carry-Kept k p f s t c
Step-Kept {k} {p} (carry_back s t c) f = carry_back-Kept k p f s t c

Runs-Flows :
    {k : Ends} {p q : Pipe} {es : List Event}
    → Runs k p es q
    → (f : Flows k p) → (g : Flows k q) × FifoRuns (pending f) es (pending g)
Runs-Flows stop f = (f, FifoRuns.stop)
Runs-Flows (then step run) f =
    let kept = Step-Kept step f in
    let (g, more) = Runs-Flows run kept.next in (g, FifoRuns.then kept.abstract more)

pub reached :
    {k : Ends} {p q : Pipe} {es : List Event}
    → Opened k p
    → Runs k p es q
    → (g : Flows k q) × FifoRuns [] es (pending g)
unfolding start
reached {k} {p} {es} o run =
    let (g, more) = Runs-Flows run (start k p o) in
    (g, subst (λ (x : Bytes). FifoRuns (x ++ []) es (pending g)) o.recv_buf more)

-- From the time when both ends of a stream are established with one window at both and nothing is on
-- its way, any run of passes of Write at the one end, Reads at the other, rounds of send whose
-- answer is no error and rounds of recv on a whole frame at both, and a connection that carries
-- bytes in pieces of any length, all undisturbed by other calls, is to the callers a run of one
-- queue of bytes that is empty at first: every Read gives the next bytes of what was written.
pub Runs-FifoRuns :
    {k : Ends} {p q : Pipe} {es : List Event}
    → Opened k p
    → Runs k p es q
    → (rest : Bytes) × FifoRuns [] es rest
Runs-FifoRuns o run = let (g, more) = reached o run in (pending g, more)

-- After any run from two ends of a stream that are established with one window at both and
-- nothing on its way, the writer's window and the bytes that are on their way to the reader's
-- buffer together do not exceed the reader's window, and that does not exceed the configured
-- maximum. What was written and not given is what is in the buffer and then what is on its way.
pub Runs-send_window :
    {k : Ends} {p q : Pipe} {es : List Event}
    → Opened k p
    → Runs k p es q
    → (w r : Stream) × (coming : Bytes) × (get_elem? q.writer.store k.writing ≡ some w)
      × (get_elem? q.reader.store k.reading ≡ some r)
      × FifoRuns [] es (r.recv_buf ++ coming)
      × (w.send_window + length coming ≤ r.recv_window)
      × (r.recv_window ≤ q.reader.config.max_stream_window_size)
Runs-send_window o run =
    let (g, more) = reached o run in
    (
      g.w,
      g.r,
      concat g.frames,
      g.writing.here,
      g.reading.here,
      more,
      omega (arith, g.credit),
      g.bound,
    )

pub passive_bound :
    {k : Ends} {p q : Pipe} {es : List Event}
    → Runs k p es q
    → (f : Flows k p) → All (λ e. passive e ≡ true) es
    → length es ≤ left f
passive_bound stop f all = omega arith
passive_bound (then step run) f all =
    let kept = Step-Kept step f in omega (arith, kept.less all.0, passive_bound run kept.next all.1)

-- After any run from two ends of a stream that are established with one window at both and
-- nothing on its way, there is a bound on how many steps may follow without a Write.
pub Runs-passive :
    {k : Ends} {p q : Pipe} {es : List Event}
    → Opened k p
    → Runs k p es q
    → (n : ℕ) × ((fs : List Event) (r : Pipe)
        → Runs k q fs r
        → All (λ e. passive e ≡ true) fs
        → length fs ≤ n)
Runs-passive o run =
    let (g, more) = reached o run in (left g, λ fs r further all. passive_bound further g all)
