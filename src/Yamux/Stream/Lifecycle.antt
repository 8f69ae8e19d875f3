-- ===== src/Yamux/Stream/Lifecycle.antt =====
-- A stream over any history of frames, calls and the end of its session.
use n6bagent.Prelude.{
  ℕ, ◌≡◌, ◌≢◌, Bool, true, false, none, some, List, [], ◌∷◌, arith, get_elem?, set, get_elem?-set,
  Bool-cases, inl, inr, set-set, if◌then◌else◌,
}
use n6bagent.Prelude.Assoc.{delete}
use n6bagent.Yamux.Const.{type_window_update, flag_fin}
use n6bagent.Yamux.Header.{encode}
use n6bagent.Yamux.State.{
  Session, Stream, StreamState, init, syn_sent, syn_received, established, local_close,
  remote_close, closed, quiet, wait_for_send_err,
}
use n6bagent.Yamux.Stream.{flags_for, force_close, close, notify_waiting}
use n6bagent.Yamux.Stream.Frames.{process}
use n6bagent.Yamux.Stream.Windows.{queued}
use n6bagent.Yamux.Io.{read_refusal}

-- The state that Close leaves a stream in.
abbrev pub closing : StreamState → StreamState
closing syn_sent = local_close
closing syn_received = local_close
closing established = local_close
closing remote_close = closed
closing s = s

-- Whether Close sends a FIN.
abbrev pub says_fin : StreamState → Bool
says_fin syn_sent = true
says_fin syn_received = true
says_fin established = true
says_fin remote_close = true
says_fin s = false

-- Whether Close takes the stream out of the map.
abbrev pub is_last : StreamState → Bool
is_last remote_close = true
is_last s = false

close_fin :
    (ref : ℕ) (s : Session) (st : Stream)
    → get_elem? s.store ref ≡ some st
    → says_fin st.state ≡ true
    → close ref quiet s
      ≡ some (
        none,
        queued (encode type_window_update flag_fin st.id 0) none (record s {
          store = set s.store ref (notify_waiting (record st { state = closing st.state }));
          streams = if is_last st.state then delete st.id s.streams else s.streams;
        }),
      )
unfolding close wait_for_send_err flags_for
close_fin ref s st here fin = ground (
  arith,
  here,
  get_elem?-set s.store ref (record st { state = closing st.state }) st here,
  set-set s.store ref (record st { state = closing st.state })
      (record st { state = closing st.state }),
  set-set s.store ref (record st { state = closing st.state })
      (notify_waiting (record st { state = closing st.state })),
)

-- The state before the SYN, in which no user has the stream yet.
abbrev pub is_init : StreamState → Bool
is_init init = true
is_init s = false

-- A Close that nothing disturbs, on a stream that has not closed its own side, sends one FIN, closes
-- that side, wakes readers and writers, and takes the stream out of the map exactly if the peer had
-- closed already. On a stream whose own side is closed, or that was reset, it does nothing. It
-- panics in the first state, before the SYN.
pub close_lem :
    (ref : ℕ) (s : Session) (st : Stream)
    → get_elem? s.store ref ≡ some st
    → close ref quiet s ≡ (
        if says_fin st.state
        then some (
          none,
          queued (encode type_window_update flag_fin st.id 0) none (record s {
            store = set s.store ref (notify_waiting (record st { state = closing st.state }));
            streams = if is_last st.state then delete st.id s.streams else s.streams;
          }),
        )
        else if is_init st.state
        then none
        else some (none, s))
unfolding close
close_lem ref s st here = elim (Bool-cases (says_fin st.state)) [
  | inl fin ↦ rw fin (close_fin ref s st here fin)
  | inr done ↦ ground (arith, here, done)
]

-- What can happen to a stream: a frame of the peer with its flags, a call of Close, flags taken by
-- a frame of its own, and the end of the session.
pub data Event : Type 0 where
  frame : ℕ → Event
  user_close : Event
  own_frame : Event
  session_end : Event

abbrev pub next : Event → Stream → Stream
next (frame fl) st = (process fl st).stream
next user_close st =
    if says_fin st.state then notify_waiting (record st { state = closing st.state }) else st
next own_frame st = record st { state = (flags_for st.state).1 }
next session_end st = force_close st

unfoldable pub history : List Event → Stream → Stream
history [] st = st
history (e ∷ es) st = history es (next e st)

next-read_refusal :
    (e : Event) (st : Stream)
    → read_refusal st.state [] ≢ none
    → read_refusal (next e st).state [] ≢ none
unfolding process flags_for force_close
next-read_refusal (frame fl) st h = ground arith
next-read_refusal user_close st h = ground arith
next-read_refusal own_frame st h = ground arith
next-read_refusal session_end st h = ground arith

-- Once a stream with an empty buffer has ended for its reader, it has ended for good: after any
-- further history an empty buffer is an end of the stream or a reset, never a wait for data.
pub history-read_refusal :
    (es : List Event) (st : Stream)
    → read_refusal st.state [] ≢ none
    → read_refusal (history es st).state [] ≢ none
unfolding history
history-read_refusal [] st h = h
history-read_refusal (e ∷ es) st h = history-read_refusal es (next e st) (next-read_refusal e st h)
