-- ===== src/Yamux/State.antt =====
-- The structs of mux.go, session.go and stream.go, and the effects of their methods.
--
-- Streams are shared by pointer between the map `streams`, the channel `acceptCh` and the callers,
-- so a session has a store of all streams that were made, and a pointer is a position in it.
-- A method is a function from a session to its result and the new session; `none` is a panic.
use n6bagent.Prelude.{
  ℕ, Bool, true, false, ℤ, Option, none, some, List, [], ◌∷◌, ◌++◌, get_elem?, set,
}
use n6bagent.Yamux.Const.{Error, session_shutdown}
use n6bagent.Yamux.Header.{Bytes}

-- mux.go, Config. `LogOutput` is left out.
pub record Config : Type 0 where
  pub accept_backlog : ℤ
  pub enable_keep_alive : Bool
  pub keep_alive_interval : ℤ
  pub max_stream_window_size : ℕ  -- uint32

pub data StreamState : Type 0 where
  init syn_sent syn_received established local_close remote_close closed reset : StreamState

-- stream.go, Stream. The locks are left out; `controlHdr` and `sendHdr` are buffers that are
-- overwritten before each use, and the error channels are part of `Wait` below.
pub record Stream : Type 0 where
  pub recv_window : ℕ  -- uint32
  pub send_window : ℕ  -- uint32
  pub id : ℕ  -- uint32
  pub state : StreamState
  pub recv_buf : Bytes
  pub recv_notify : Bool
  pub send_notify : Bool
  pub read_deadline : Option ℕ  -- `none` is the zero time
  pub write_deadline : Option ℕ

-- session.go, sendReady. `replies` says whether the sender gave an error channel.
pub record SendReady : Type 0 where
  pub hdr : Bytes
  pub body : Option Bytes
  pub replies : Bool

-- session.go, Session. The buffered reader is the bytes that the connection has still to give
-- and the error at their end. A channel of a ping is a number, and `closed_chans` are the closed
-- ones. `output` is what the connection was given.
pub record Session : Type 0 where
  pub remote_go_away : ℕ
  pub local_go_away : ℕ
  pub next_stream_id : ℕ  -- uint32
  pub config : Config
  pub pings : List (ℕ × ℕ)
  pub ping_id : ℕ  -- uint32
  pub closed_chans : List ℕ
  pub chan_count : ℕ
  pub store : List Stream
  pub streams : List (ℕ × ℕ)
  pub accept_ch : List ℕ
  pub send_ch : List SendReady
  pub shutdown : Bool
  pub shutdown_err : Option Error
  pub shutdown_ch : Bool  -- closed?
  pub conn_closed : Bool
  pub input : Bytes
  pub input_end : Error
  pub output : Bytes

abbrev pub M {ℓ} : Type ℓ → Type ℓ
M A = Session → Option (A × Session)

infixl 5 ◌>>=◌ ◌>>◌
abbrev pub ◌>>=◌ {ℓ κ} : {A : Type ℓ} {B : Type κ} → M A → (A → M B) → M B
◌>>=◌ m f s = elim (m s) [ none ↦ none | some (a, s') ↦ f a s' ]

abbrev pub ◌>>◌ {ℓ κ} : {A : Type ℓ} {B : Type κ} → M A → M B → M B
m >> k = m >>= λ _. k

abbrev pub return {ℓ} : {A : Type ℓ} → A → M A
return a s = some (a, s)

abbrev pub panic {ℓ} : {A : Type ℓ} → M A
panic s = none

abbrev pub get : M Session
get s = some (s, s)

abbrev pub modify : (Session → Session) → M (Unit {0})
modify f s = some (tt, f s)

-- A read and a write through a pointer to a stream; a nil pointer panics.
abbrev pub load : ℕ → M Stream
load ref s = elim (get_elem? s.store ref) [ none ↦ none | some st ↦ some (st, s) ]

abbrev pub save : ℕ → Stream → M (Unit {0})
save ref st s = some (tt, record s { store = set s.store ref st })

-- What happens while a goroutine is blocked in a `select` on a channel and on `shutdownCh`.
-- `before` and `after` are what the other goroutines do, and `outcome` is the case that is taken:
-- the first `select` saw the shutdown, the second one did, or the sender answered.
pub data Outcome : Type 0 where
  refused : Outcome
  abandoned : Outcome
  answered : Option Error → Outcome

pub record Wait : Type 0 where
  pub before : Session → Session
  pub outcome : Outcome
  pub after : Session → Session

-- Nothing else runs, and the sender answers without an error.
abbrev pub quiet : Wait
quiet = record { before = λ s. s; outcome = answered none; after = λ s. s }

abbrev enqueue : SendReady → Session → Session
enqueue r s = record s { send_ch = s.send_ch ++ r ∷ [] }

-- session.go, waitForSendErr. `waitForSend` is the same with an error channel of its own.
unfoldable pub wait_for_send_err : Bytes → Option Bytes → Wait → M (Option Error)
wait_for_send_err hdr body w s =
    let ready : SendReady = record { hdr = hdr; body = body; replies = true } in
    elim w.outcome [
      | refused ↦ some (some session_shutdown, w.before s)
      | abandoned ↦ some (some session_shutdown, w.after (enqueue ready (w.before s)))
      | answered e ↦ some (e, w.after (enqueue ready (w.before s)))
    ]

-- session.go, sendNoWait.
unfoldable pub send_no_wait : Bytes → Wait → M (Option Error)
send_no_wait hdr w s =
    let ready : SendReady = record { hdr = hdr; body = none; replies = false } in
    elim w.outcome [
      | refused ↦ some (some session_shutdown, w.before s)
      | abandoned ↦ some (some session_shutdown, w.before s)
      | answered e ↦ some (none, w.after (enqueue ready (w.before s)))
    ]
