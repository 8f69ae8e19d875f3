-- ===== src/Yamux/Invariant.antt =====
-- What holds of a session between two of its steps, and the steps that keep it.
pub mod Receiving
pub mod Loop
pub mod Total
use n6bagent.Prelude.{
  ℕ, ◌+◌, ◌≤◌, ◌<◌, ◌≡◌, ◌≢◌, refl, Bool, true, false, Option, none, some, List, [], ◌∷◌, ◌++◌,
  length, length-append, length-set, arith, to_ℕ, get_elem?, get_elem?-of_lt, set, if◌then◌else◌,
}
use n6bagent.Prelude.Assoc.{lookup, insert, delete, lookup-insert, lookup-delete}
use n6bagent.Yamux.Const.{Error, session_shutdown}
use n6bagent.Yamux.Header.{Bytes}
use n6bagent.Yamux.State.{
  Session, Stream, SendReady, Wait, Outcome, refused, abandoned, answered, M, ◌>>=◌, ◌>>◌, return,
  get, modify, load, save, send_no_wait, wait_for_send_err,
}

-- Every pointer in the map points to a stream, and the backlog is within its limit.
pub record Inv (s : Session) : Type 0 where
  pub mapped : (id ref : ℕ) → lookup id s.streams ≡ some ref → ref < length s.store
  pub backlog : length s.accept_ch ≤ to_ℕ s.config.accept_backlog

-- What a step may do to a session: it keeps the invariant, frees no stream, and puts nothing back
-- into the input.
pub record Keeps (s t : Session) : Type 0 where
  pub still : Inv s → Inv t
  pub stored : length s.store ≤ length t.store
  pub consumed : length t.input ≤ length s.input

pub Keeps-refl : (s : Session) → Keeps s s
Keeps-refl s = record { still = λ v. v; stored = omega arith; consumed = omega arith }

pub Keeps-trans : {s t u : Session} → Keeps s t → Keeps t u → Keeps s u
Keeps-trans h k = record {
  still = λ v. k.still (h.still v);
  stored = omega arith;
  consumed = omega arith;
}

-- The other goroutines keep to the same rules while a call waits.
pub record IsFair (w : Wait) : Type 0 where
  pub before_keeps : (s : Session) → Keeps s (w.before s)
  pub after_keeps : (s : Session) → Keeps s (w.after s)

-- A method that does not panic in any session with the invariant and at least `k` streams made,
-- and that keeps the rules.
abbrev pub Safe {ℓ} : {A : Type ℓ} → ℕ → M A → Type ℓ
Safe {A} k m =
    (s : Session)
    → Inv s
    → k ≤ length s.store
    → (a : A) × (t : Session) × (m s ≡ some (a, t)) × Keeps s t

pub >>=-Safe {ℓ κ} :
    {A : Type ℓ} {B : Type κ} (k : ℕ) (m : M A) (f : A → M B)
    → Safe k m
    → ((a : A) → Safe k (f a))
    → Safe k (m >>= f)
>>=-Safe k m f p q s v h =
    let (a, t, e, keep) = p s v h in
    let (b, u, e', keep') = q a t (keep.still v) (omega (arith, keep.stored)) in
    (b, u, rw (e, ◌>>=◌) e', Keeps-trans keep keep')

pub return-Safe {ℓ} : {A : Type ℓ} (k : ℕ) (a : A) → Safe k (return a)
return-Safe k a s v h = (a, s, refl, Keeps-refl s)

pub modify-Safe :
    (k : ℕ) (f : Session → Session)
    → ((s : Session) → Inv s → k ≤ length s.store → Keeps s (f s))
    → Safe k (modify f)
modify-Safe k f p s v h = (tt, f s, refl, p s v h)

pub get-Safe : (k : ℕ) → Safe k get
get-Safe k s v h = (s, s, refl, Keeps-refl s)

pub load-Safe : (k ref : ℕ) → ref < k → Safe k (load ref)
load-Safe k ref lt s v h =
    let (st, e) = get_elem?-of_lt s.store ref (omega arith) in (st, s, rw (e, load), Keeps-refl s)

save-Keeps :
    (ref : ℕ) (st : Stream) (s : Session) → Keeps s (record s { store = set s.store ref st })
save-Keeps ref st s = record {
  still = λ v. record {
    mapped = λ id r e. omega (arith, v.mapped id r e, length-set s.store ref st);
    backlog = v.backlog;
  };
  stored = omega (arith, length-set s.store ref st);
  consumed = omega arith;
}

pub save-Safe : (k ref : ℕ) (st : Stream) → Safe k (save ref st)
save-Safe k ref st s v h = (tt, record s { store = set s.store ref st }, refl, save-Keeps ref st s)

pub if-Safe {ℓ} :
    {A : Type ℓ} (k : ℕ) (b : Bool) (m n : M A) → Safe k m → Safe k n → Safe k (if b then m else n)
if-Safe k true m n p q = p
if-Safe k false m n p q = q

queue-Keeps : (s : Session) (q : List SendReady) → Keeps s (record s { send_ch = q })
queue-Keeps s q = record {
  still = λ v. record { mapped = v.mapped; backlog = v.backlog };
  stored = omega arith;
  consumed = omega arith;
}

-- The session behind a wait in which the frame was queued.
queue_waited-Keeps :
    (w : Wait) (s : Session) (q : List SendReady)
    → IsFair w
    → Keeps s (w.after (record (w.before s) { send_ch = q }))
queue_waited-Keeps w s q fair =
    Keeps-trans (fair.before_keeps s)
      (Keeps-trans (queue-Keeps (w.before s) q) (fair.after_keeps _))

module _ (hdr : Bytes) (w : Wait) (fair : IsFair w) where
  pub send_no_wait-Safe : (k : ℕ) → Safe k (send_no_wait hdr w)
  unfolding send_no_wait
  send_no_wait-Safe k s v h = go w.outcome refl
    where
      ready : SendReady
      ready = record { hdr = hdr; body = none; replies = false }

      go :
          (o : Outcome)
          → w.outcome ≡ o
          → (a : Option Error) × (t : Session) × (send_no_wait hdr w s ≡ some (a, t)) × Keeps s t
      go refused e = (some session_shutdown, w.before s, rw e, fair.before_keeps s)
      go abandoned e = (some session_shutdown, w.before s, rw e, fair.before_keeps s)
      go (answered x) e = (
        none,
        w.after (record (w.before s) { send_ch = (w.before s).send_ch ++ ready ∷ [] }),
        rw e,
        queue_waited-Keeps w s _ fair,
      )

  pub wait_for_send_err-Safe : (k : ℕ) (body : Option Bytes) → Safe k (wait_for_send_err hdr body w)
  unfolding wait_for_send_err
  wait_for_send_err-Safe k body s v h = go w.outcome refl
    where
      ready : SendReady
      ready = record { hdr = hdr; body = body; replies = true }

      u : Session
      u = w.after (record (w.before s) { send_ch = (w.before s).send_ch ++ ready ∷ [] })

      go :
          (o : Outcome)
          → w.outcome ≡ o
          → (a : Option Error) × (t : Session) × (wait_for_send_err hdr body w s ≡ some (a, t))
            × Keeps s t
      go refused e = (some session_shutdown, w.before s, rw e, fair.before_keeps s)
      go abandoned e = (some session_shutdown, u, rw e, queue_waited-Keeps w s _ fair)
      go (answered x) e = (x, u, rw e, queue_waited-Keeps w s _ fair)
