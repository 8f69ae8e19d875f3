-- ===== src/Yamux/Invariant/Receiving.antt =====
-- The methods of a stream that recv calls keep the invariant and do not panic.
use n6bagent.Prelude.{
  ℕ, ◌<◌, ◌≡◌, Option, none, some, List, ◌++◌, length-drop, arith, drop, take, ◌==◌, ltb,
}
use n6bagent.Prelude.Assoc.{lookup, delete, lookup-delete}
use n6bagent.Yamux.Const.{Error}
use n6bagent.Yamux.Header.{Bytes, payload_length}
use n6bagent.Yamux.State.{Session, Stream, M, ◌>>=◌, ◌>>◌, return, get, modify, load, save}
use n6bagent.Yamux.Stream.{close_stream, unless_failed}
use n6bagent.Yamux.Stream.Frames.{
  process_flags, process, incr_send_window, grow_send_window, accept_payload, copy_payload,
  copy_error, shrink_recv_window, read_data,
}
use n6bagent.Yamux.Invariant.{
  Keeps, Safe, >>=-Safe, return-Safe, modify-Safe, load-Safe, save-Safe, if-Safe, get-Safe,
}

lookup-delete-some :
    (k j r : ℕ) (m : List (ℕ × ℕ)) → lookup j (delete k m) ≡ some r → lookup j m ≡ some r
lookup-delete-some k j r m e = ground (arith, lookup-delete k j m)

pub delete-Keeps : (id : ℕ) (s : Session) → Keeps s (record s { streams = delete id s.streams })
delete-Keeps id s = record {
  still = λ v. record {
    mapped = λ j r e. v.mapped j r (lookup-delete-some id j r s.streams e);
    backlog = v.backlog;
  };
  stored = omega arith;
  consumed = omega arith;
}

pub drop-Keeps : (n : ℕ) (s : Session) → Keeps s (record s { input = drop n s.input })
drop-Keeps n s = record {
  still = λ v. record { mapped = v.mapped; backlog = v.backlog };
  stored = omega arith;
  consumed = omega (arith, length-drop n s.input);
}

close_stream-Safe : (k id : ℕ) → Safe k (close_stream id)
unfolding close_stream
close_stream-Safe k id = modify-Safe k _ (λ s v h. delete-Keeps id s)

pub unless_failed-Safe :
    (k : ℕ) (e : Option Error) (m : M (Option Error)) → Safe k m → Safe k (unless_failed e m)
unless_failed-Safe k (some e) m p = return-Safe k (some e)
unless_failed-Safe k none m p = p

module _ (k ref : ℕ) (lt : ref < k) where
  process_flags-Safe : (fl : ℕ) → Safe k (process_flags ref fl)
  unfolding process_flags
  process_flags-Safe fl = >>=-Safe k (load ref) _ (load-Safe k ref lt) λ st.
      >>=-Safe k (save ref (process fl st).stream) _ (save-Safe k ref _) λ _.
        >>=-Safe k _ _
          (if-Safe k (process fl st).removed _ _ (close_stream-Safe k st.id) (return-Safe k tt))
          λ _. return-Safe k (process fl st).failure

  -- A stream that is read and written back changed.
  update-Safe :
      (f : Stream → Stream) (e : Option Error)
      → Safe k (load ref >>= (λ st. save ref (f st) >> return e))
  update-Safe f e =
      >>=-Safe k (load ref) _ (load-Safe k ref lt)
        λ st. >>=-Safe k (save ref (f st)) _ (save-Safe k ref _) λ _. return-Safe k e

  pub incr_send_window-Safe : (hdr : Bytes) (fl : ℕ) → Safe k (incr_send_window ref hdr fl)
  unfolding incr_send_window grow_send_window
  incr_send_window-Safe hdr fl =
      >>=-Safe k (process_flags ref fl) _ (process_flags-Safe fl)
        λ e. unless_failed-Safe k e _ (update-Safe _ none)

  shrink-Safe : (n : ℕ) (e : Option Error) → Safe k (shrink_recv_window ref n e)
  unfolding shrink_recv_window
  shrink-Safe n (some e) = return-Safe k (some e)
  shrink-Safe n none = update-Safe _ none

  copy_payload-Safe : (n : ℕ) → Safe k (copy_payload ref n)
  unfolding copy_payload
  copy_payload-Safe n = >>=-Safe k get _ (get-Safe k) λ s.
      >>=-Safe k (load ref) _ (load-Safe k ref lt) λ st.
        >>=-Safe k (save ref (record st { recv_buf = st.recv_buf ++ take n s.input })) _
          (save-Safe k ref _)
          λ _.
            >>=-Safe k (modify _) _ (modify-Safe k _ (λ t v h. drop-Keeps n t))
              λ _. return-Safe k (copy_error n s.input s.input_end)

  pub read_data-Safe : (hdr : Bytes) (fl : ℕ) → Safe k (read_data ref hdr fl)
  unfolding read_data accept_payload
  read_data-Safe hdr fl = >>=-Safe k (process_flags ref fl) _ (process_flags-Safe fl) λ e.
      unless_failed-Safe k e _ (
        >>=-Safe k (load ref) _ (load-Safe k ref lt) λ st.
          if-Safe k (payload_length hdr == 0) _ _ (return-Safe k none) (
            if-Safe k (ltb st.recv_window (payload_length hdr)) _ _ (return-Safe k _)
              (>>=-Safe k (copy_payload ref _) _ (copy_payload-Safe _) λ r. shrink-Safe _ r)))
