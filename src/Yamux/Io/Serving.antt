-- ===== src/Yamux/Io/Serving.antt =====
-- What Read gives of the data that is there.
use n6bagent.Prelude.{
  ℕ, ◌/◌, ◌<◌, ◌≡◌, refl, none, some, [], length, drop, take, get_elem?, get_elem?-set, Bool-cases,
  inl, inr, ltb,
}
use n6bagent.Yamux.State.{Session, Stream, established, quiet}
use n6bagent.Yamux.Stream.{sub_uint32}
use n6bagent.Yamux.Stream.Windows.{with_stream}
use n6bagent.Yamux.Io.{read}
use n6bagent.Yamux.Io.Passing.{read_small, read_large, taken, announced}

-- An undisturbed Read of `n` bytes on an established stream with data gives the first `n` bytes of
-- the buffer, or all if there are no more, and keeps the others, whatever the windows are.
pub read-take :
    (ref n : ℕ) (s : Session) (st : Stream)
    → get_elem? s.store ref ≡ some st
    → st.state ≡ established
    → 0 < length st.recv_buf
    → (u : Session) × (v : Stream) × (read ref n quiet [] s
        ≡ some (some (take n st.recv_buf, none), u))
      × (get_elem? u.store ref ≡ some v)
      × (v.recv_buf ≡ drop n st.recv_buf)
read-take ref n s st here live more =
    let max = s.config.max_stream_window_size in
    elim (Bool-cases (ltb (sub_uint32 max st.recv_window) (max / 2))) [
      | inl small ↦ (
        with_stream ref (taken ref s st here live n) s,
        taken ref s st here live n,
        read_small ref s st here live n more small,
        get_elem?-set s.store ref _ st here,
        refl,
      )
      | inr large ↦ (
        announced ref s st here live n,
        _,
        read_large ref s st here live n more large,
        get_elem?-set s.store ref _ st here,
        refl,
      )
    ]
