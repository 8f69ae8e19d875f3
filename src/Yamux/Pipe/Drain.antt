-- ===== src/Yamux/Pipe/Drain.antt =====
-- Runs without a Write until all that was written has been given.
use n6bagent.Prelude.{
  ℕ, zero, suc, ◌≤◌, ◌<◌, ◌≡◌, refl, ap, sym, ◌∙◌, subst, ◌⊎◌, inl, inr, some, List, [], ◌∷◌, ◌++◌,
  append-nil, All, arith, get_elem?, true,
}
use n6bagent.Yamux.Header.{Bytes}
use n6bagent.Yamux.State.{Stream}
use n6bagent.Yamux.Pipe.{Ends, Pipe, Event, wrote, gave, silent, passive, Runs}
use n6bagent.Yamux.Pipe.Fifo.{FifoRuns, FifoRuns-given, written, given}
use n6bagent.Yamux.Pipe.Flows.{Flows, pending, left}
use n6bagent.Yamux.Pipe.Progress.{Enabled, progress}
use n6bagent.Yamux.Pipe.Delivery.{Opened, Step-Kept, reached}

-- A run without a Write to a pipe with nothing left to do.
pub record Drain (k : Ends) (p : Pipe) (f : Flows k p) : Type 0 where
  pub events : List Event
  pub end : Pipe
  pub run : Runs k p events end
  pub quiet_run : All (λ e. passive e ≡ true) events
  pub flows : Flows k end
  pub abstract : FifoRuns (pending f) events []
  pub wide : 0 < flows.w.send_window

finished :
    (k : Ends) (p : Pipe) (f : Flows k p) → pending f ≡ [] → 0 < f.w.send_window → Drain k p f
finished k p f empty wide = record {
  events = [];
  end = p;
  run = Runs.stop;
  quiet_run = tt;
  flows = f;
  abstract = subst (λ (x : Bytes). FifoRuns (pending f) [] x) empty FifoRuns.stop;
  wide = wide;
}

-- What is left to do is fuel enough.
drain : (n : ℕ) (k : Ends) (p : Pipe) (f : Flows k p) → left f ≤ n → Drain k p f
drain zero k p f le = elim (progress k p f) [
  | inr (empty, wide) ↦ finished k p f empty wide
  | inl (e, q, step, calm) ↦ absurd (omega (arith, (Step-Kept step f).less calm, le))
]
drain (suc n) k p f le = elim (progress k p f) [
  | inr (empty, wide) ↦ finished k p f empty wide
  | inl (e, q, step, calm) ↦
      let kept = Step-Kept step f in
      let d = drain n k q kept.next (omega (arith, kept.less calm, le)) in
      record {
        events = e ∷ d.events;
        end = d.end;
        run = Runs.then step d.run;
        quiet_run = (calm, d.quiet_run);
        flows = d.flows;
        abstract = FifoRuns.then kept.abstract d.abstract;
        wide = d.wide;
      }
]

-- After any run from two ends that are established with one window at both and nothing on its way,
-- a step other than a Write can be taken, or all that was written has been given and the writer's
-- window is not shut.
pub Runs-Enabled :
    {k : Ends} {p q : Pipe} {es : List Event}
    → Opened k p
    → Runs k p es q
    → Enabled k q
      ⊎ ((given es ≡ written es)
          × (w : Stream) × (get_elem? q.writer.store k.writing ≡ some w)
          × (0 < w.send_window))
Runs-Enabled {k} {p} {q} {es} o run =
    let (g, abstract) = reached o run in
    elim (progress k q g) [
      | inl go ↦ inl go
      | inr (empty, wide) ↦ inr (
        sym (append-nil (given es)) ∙ ap (◌++◌ (given es)) (sym empty) ∙ FifoRuns-given abstract,
        g.w,
        g.writing.here,
        wide,
      )
    ]

passive-written : (fs : List Event) → All (λ e. passive e ≡ true) fs → written fs ≡ []
passive-written [] all = refl
passive-written (wrote b ∷ fs) all = absurd (ground arith)
passive-written (gave b ∷ fs) all = passive-written fs all.1
passive-written (silent ∷ fs) all = passive-written fs all.1

given_all :
    (es fs : List Event) (mid : Bytes)
    → FifoRuns [] es mid
    → FifoRuns mid fs []
    → All (λ e. passive e ≡ true) fs
    → given es ++ given fs ≡ written es
given_all es fs mid first second all =
    let rest : given fs ≡ mid =
      sym (append-nil (given fs))
      ∙ FifoRuns-given second
      ∙ ap (◌++◌ mid) (passive-written fs all)
      ∙ append-nil mid in
    ap (◌++◌ (given es)) rest ∙ FifoRuns-given first

-- Any run from two ends that are established with one window at both and nothing on its way can be
-- continued without a Write until all that was written has been given and the writer's window is not
-- shut: no bytes are stuck, and a writer that waits for a window gets one.
pub Runs-drain :
    {k : Ends} {p q : Pipe} {es : List Event}
    → Opened k p
    → Runs k p es q
    → (fs : List Event) × (r : Pipe) × (w : Stream) × Runs k q fs r
      × All (λ e. passive e ≡ true) fs
      × (given es ++ given fs ≡ written es)
      × (get_elem? r.writer.store k.writing ≡ some w)
      × (0 < w.send_window)
Runs-drain {k} {p} {q} {es} o run =
    let (g, abstract) = reached o run in
    let d = drain (left g) k q g (omega arith) in
    (
      d.events,
      d.end,
      d.flows.w,
      d.run,
      d.quiet_run,
      given_all es d.events (pending g) abstract d.abstract d.quiet_run,
      d.flows.writing.here,
      d.wide,
    )
