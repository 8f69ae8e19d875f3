-- ===== src/Yamux/Pipe/Wire.antt =====
-- The bytes between two sessions as frames: what is still queued, on its way and not read yet.
use n6bagent.Prelude.{
  ℕ, suc, ◌+◌, ◌*◌, ◌≤◌, ◌<◌, ◌≡◌, refl, ap, ap₂, ◌∙◌, sym, List, [], ◌∷◌, ◌++◌, append-nil,
  append_assoc, arith, length, length-append,
}
use n6bagent.Yamux.Const.{type_data, type_window_update}
use n6bagent.Yamux.Header.{Bytes, encode}
use n6bagent.Yamux.State.{Session, SendReady}
use n6bagent.Yamux.Send.Wire.{body_bytes}
use n6bagent.Yamux.Pipe.{Carried}

abbrev pub concat : List Bytes → Bytes
concat [] = []
concat (b ∷ bs) = b ++ concat bs

abbrev pub sum : List ℕ → ℕ
sum [] = 0
sum (n ∷ ns) = n + sum ns

abbrev pub ready_bytes : SendReady → Bytes
ready_bytes r = r.hdr ++ body_bytes r.body

abbrev pub queue_bytes : List SendReady → Bytes
queue_bytes [] = []
queue_bytes (r ∷ q) = ready_bytes r ++ queue_bytes q

-- Data frames without flags.
abbrev pub data_bytes : ℕ → List Bytes → Bytes
data_bytes id [] = []
data_bytes id (b ∷ bs) = encode type_data 0 id (length b) ++ (b ++ data_bytes id bs)

abbrev pub update_bytes : ℕ → List ℕ → Bytes
update_bytes id [] = []
update_bytes id (n ∷ ns) = encode type_window_update 0 id n ++ update_bytes id ns

-- All bytes from one session to another, in the order in which they come.
abbrev pub stream_bytes : Session → Session → Bytes
stream_bytes s t = t.input ++ (s.output ++ queue_bytes s.send_ch)

-- A measure of what is still to be done with the bytes of two sessions and of the buffer of the
-- reader. A byte counts less after each step, and a byte of the buffer more than a window update.
abbrev queue_size : List SendReady → ℕ
queue_size [] = 0
queue_size (r ∷ q) = suc (length (ready_bytes r)) + queue_size q

abbrev pub work : Session → Session → Bytes → ℕ
work s t buf =
    43 * queue_size s.send_ch
    + 42 * length s.output
    + 41 * length t.input
    + 40 * length buf
    + 3 * queue_size t.send_ch
    + 2 * length t.output
    + length s.input

pub queue_size-append :
    (q : List SendReady) (r : SendReady)
    → queue_size (q ++ r ∷ []) ≡ queue_size q + suc (length (ready_bytes r))
queue_size-append [] r = omega arith
queue_size-append (x ∷ q) r = omega (arith, queue_size-append q r)

-- A round of send that puts a frame on the connection leaves less to do, and so does the connection
-- that moves bytes.
pub work-send :
    (s t : Session) (buf : Bytes) (r : SendReady) (rest : List SendReady)
    → s.send_ch ≡ r ∷ rest
    → work (record s { send_ch = rest; output = s.output ++ ready_bytes r }) t buf < work s t buf
work-send s t buf r rest e = rw e (omega (arith, length-append s.output (ready_bytes r)))

pub work-send_back :
    (s t : Session) (buf : Bytes) (r : SendReady) (rest : List SendReady)
    → t.send_ch ≡ r ∷ rest
    → work s (record t { send_ch = rest; output = t.output ++ ready_bytes r }) buf < work s t buf
work-send_back s t buf r rest e = rw e (omega (arith, length-append t.output (ready_bytes r)))

pub work-carry :
    (s t s' t' : Session) (buf : Bytes) → Carried s t s' t' → work s' t' buf < work s t buf
work-carry s t s' t' buf c =
    rw (c.sent, c.arrived, c.from)
      (omega (arith, c.some_bytes, length-append t.input c.moved, length-append c.moved c.left))

pub work-carry_back :
    (s t s' t' : Session) (buf : Bytes) → Carried t s t' s' → work s' t' buf < work s t buf
work-carry_back s t s' t' buf c =
    rw (c.sent, c.arrived, c.from)
      (omega (arith, c.some_bytes, length-append s.input c.moved, length-append c.moved c.left))

pub concat-append : (bs : List Bytes) (b : Bytes) → concat (bs ++ b ∷ []) ≡ concat bs ++ b
concat-append [] b = append-nil b
concat-append (c ∷ bs) b = ap (◌++◌ c) (concat-append bs b) ∙ sym (append_assoc c (concat bs) b)

pub sum-append : (ns : List ℕ) (n : ℕ) → sum (ns ++ n ∷ []) ≡ sum ns + n
sum-append [] n = omega arith
sum-append (m ∷ ns) n = omega (arith, sum-append ns n)

queue-append :
    (q : List SendReady) (r : SendReady)
    → queue_bytes (q ++ r ∷ []) ≡ queue_bytes q ++ ready_bytes r
queue-append [] r = append-nil (ready_bytes r)
queue-append (x ∷ q) r =
    ap (◌++◌ (ready_bytes x)) (queue-append q r)
    ∙ sym (append_assoc (ready_bytes x) (queue_bytes q) (ready_bytes r))

pub data-append :
    (id : ℕ) (bs : List Bytes) (b : Bytes)
    → data_bytes id (bs ++ b ∷ []) ≡ data_bytes id bs ++ (encode type_data 0 id (length b) ++ b)
data-append id [] b = ap (◌++◌ (encode type_data 0 id (length b))) (append-nil b)
data-append id (c ∷ bs) b =
    let h : Bytes = encode type_data 0 id (length c) in
    let e : Bytes = encode type_data 0 id (length b) ++ b in
    ap (λ (x : Bytes). h ++ (c ++ x)) (data-append id bs b)
    ∙ ap (◌++◌ h) (sym (append_assoc c (data_bytes id bs) e))
    ∙ sym (append_assoc h (c ++ data_bytes id bs) e)

pub update-append :
    (id : ℕ) (ns : List ℕ) (n : ℕ)
    → update_bytes id (ns ++ n ∷ []) ≡ update_bytes id ns ++ encode type_window_update 0 id n
update-append id [] n = append-nil (encode type_window_update 0 id n)
update-append id (m ∷ ns) n =
    let h : Bytes = encode type_window_update 0 id m in
    ap (◌++◌ h) (update-append id ns n)
    ∙ sym (append_assoc h (update_bytes id ns) (encode type_window_update 0 id n))

-- A frame that is queued comes behind all that was there.
pub stream-queue :
    (s t : Session) (r : SendReady) (b : Bytes)
    → stream_bytes s t ≡ b
    → stream_bytes (record s { send_ch = s.send_ch ++ r ∷ [] }) t ≡ b ++ ready_bytes r
stream-queue s t r b e =
    let x : Bytes = ready_bytes r in
    ap (λ (z : Bytes). t.input ++ (s.output ++ z)) (queue-append s.send_ch r)
    ∙ ap (◌++◌ t.input) (sym (append_assoc s.output (queue_bytes s.send_ch) x))
    ∙ sym (append_assoc t.input (s.output ++ queue_bytes s.send_ch) x)
    ∙ ap (λ (z : Bytes). z ++ x) e

-- Neither a round of send nor the connection changes what comes.
pub stream-send :
    (s t : Session) (r : SendReady) (rest : List SendReady) (b : Bytes)
    → s.send_ch ≡ r ∷ rest
    → stream_bytes s t ≡ b
    → stream_bytes (record s { send_ch = rest; output = s.output ++ ready_bytes r }) t ≡ b
stream-send s t r rest b e all =
    ap (◌++◌ t.input) (append_assoc s.output (ready_bytes r) (queue_bytes rest))
    ∙ sym (ap (λ (q : List SendReady). t.input ++ (s.output ++ queue_bytes q)) e)
    ∙ all

pub stream-carry :
    (s t : Session) (moved left b : Bytes)
    → s.output ≡ moved ++ left
    → stream_bytes s t ≡ b
    → stream_bytes (record s { output = left }) (record t { input = t.input ++ moved }) ≡ b
stream-carry s t moved left b e all =
    let q : Bytes = queue_bytes s.send_ch in
    append_assoc t.input moved (left ++ q)
    ∙ ap (◌++◌ t.input) (sym (append_assoc moved left q))
    ∙ sym (ap (λ (o : Bytes). t.input ++ (o ++ q)) e)
    ∙ all

-- An input that is long enough for the first part of what comes begins with it.
pub prefix_split :
    (a c p q : Bytes)
    → a ++ c ≡ p ++ q
    → length p ≤ length a
    → (r : Bytes) × (a ≡ p ++ r) × (r ++ c ≡ q)
prefix_split a c [] q e le = (a, refl, e)
prefix_split [] c (x ∷ p) q e le = absurd (omega arith)
prefix_split (y ∷ a) c (x ∷ p) q e le =
    let tails : a ++ c ≡ p ++ q = cc in
    let same : y ≡ x = cc in
    let (r, split, rest) = prefix_split a c p q tails (omega arith) in (r, ap₂ ◌∷◌ same split, rest)
