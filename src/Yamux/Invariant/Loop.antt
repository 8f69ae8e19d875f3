-- ===== src/Yamux/Invariant/Loop.antt =====
-- The handlers of recv keep the invariant and do not panic.
use n6bagent.Prelude.{
  ℕ, suc, ◌<◌, ◌&&◌, Option, none, some, List, [], ◌∷◌, ◌++◌, length, length-append, arith, to_ℕ,
  Option-cases, Bool-cases, inl, inr, ◌==◌, ltb,
}
use n6bagent.Prelude.Assoc.{lookup, insert, delete, lookup-insert}
use n6bagent.Yamux.Const.{
  Error, type_go_away, type_window_update, flag_rst, type_data, type_ping, flag_syn, has_flag,
  invalid_msg_type, go_away_normal, go_away_proto_err, go_away_internal_err, duplicate_stream,
}
use n6bagent.Yamux.Header.{Bytes, payload_length, stream_id, flags, msg_type, encode}
use n6bagent.Yamux.State.{Session, Stream, Wait, M, ◌>>=◌, get, modify, send_no_wait}
use n6bagent.Yamux.Stream.Frames.{read_data, incr_send_window}
use n6bagent.Yamux.Session.{alloc, go_away_header}
use n6bagent.Yamux.Recv.{
  offer, refuse, register_stream, incoming_stream, deliver, deliver_found, or_go_away,
  handle_stream_message, answer_ping, handle_ping, handle_go_away, dispatch,
}
use n6bagent.Yamux.Invariant.{
  Keeps, IsFair, Safe, >>=-Safe, return-Safe, modify-Safe, if-Safe, get-Safe, send_no_wait-Safe,
  Keeps-trans,
}
use n6bagent.Yamux.Invariant.Receiving.{
  delete-Keeps, drop-Keeps, unless_failed-Safe, incr_send_window-Safe, read_data-Safe,
}

insert-Keeps :
    (id ref : ℕ) (s : Session)
    → ref < length s.store
    → Keeps s (record s { streams = insert id ref s.streams })
insert-Keeps id ref s lt = record {
  still = λ v. record {
    mapped = λ j r e. ground (arith, lookup-insert id j ref s.streams, v.mapped j r);
    backlog = v.backlog;
  };
  stored = omega arith;
  consumed = omega arith;
}

alloc-Safe {ℓ} :
    {B : Type ℓ} (k : ℕ) (st : Stream) (f : ℕ → M B)
    → ((ref : ℕ) → Safe (suc ref) (f ref))
    → Safe k (alloc st >>= f)
alloc-Safe k st f p s v h =
    let t : Session = record s { store = s.store ++ st ∷ [] } in
    let grown : Keeps s t = record {
      still = λ v. record {
        mapped = λ j r e. omega (arith, v.mapped j r e, length-append s.store (st ∷ []));
        backlog = v.backlog;
      };
      stored = omega (arith, length-append s.store (st ∷ []));
      consumed = omega arith;
    } in
    let (b, u, e, keep) =
      p (length s.store) t (grown.still v) (omega (arith, length-append s.store (st ∷ []))) in
    (b, u, e, Keeps-trans grown keep)

flag_update-Keeps :
    (a b : ℕ) (s : Session) → Keeps s (record s { local_go_away = a; remote_go_away = b })
flag_update-Keeps a b s = record {
  still = λ v. record { mapped = v.mapped; backlog = v.backlog };
  stored = omega arith;
  consumed = omega arith;
}

pings-Keeps :
    (m : List (ℕ × ℕ)) (cs : List ℕ) (s : Session)
    → Keeps s (record s { pings = m; closed_chans = cs })
pings-Keeps m cs s = record {
  still = λ v. record { mapped = v.mapped; backlog = v.backlog };
  stored = omega arith;
  consumed = omega arith;
}

module _ (w : Wait) (fair : IsFair w) where
  refuse-Safe : (k reason : ℕ) (e : Error) → Safe k (refuse reason e w)
  unfolding go_away_header
  refuse-Safe k reason e =
      >>=-Safe k (go_away_header reason) _
        (>>=-Safe k (modify _) _ (modify-Safe k _ (λ s v h. flag_update-Keeps 1 s.remote_go_away s))
          λ _. return-Safe k (encode type_go_away 0 0 reason))
        λ hdr.
          >>=-Safe k (send_no_wait hdr w) _ (send_no_wait-Safe hdr w fair k)
            λ _. return-Safe k (some e)

  offer-Safe : (k id ref : ℕ) → Safe k (offer id ref w)
  unfolding offer
  offer-Safe k id ref s v h =
      elim (Bool-cases (ltb (length s.accept_ch) (to_ℕ s.config.accept_backlog))) [
        | inl room ↦ (
          none,
          record s { accept_ch = s.accept_ch ++ ref ∷ [] },
          rw room,
          record {
            still = λ v. record {
              mapped = v.mapped;
              backlog = ground (arith, length-append s.accept_ch (ref ∷ []));
            };
            stored = omega arith;
            consumed = omega arith;
          },
        )
        | inr full ↦
            let gone = delete-Keeps id s in
            let (a, t, e, keep) =
              send_no_wait-Safe (encode type_window_update flag_rst id 0) w fair k
                (record s { streams = delete id s.streams }) (gone.still v) h in
            (a, t, rw full e, Keeps-trans gone keep)
      ]

  register-Safe : (k id ref : ℕ) (old : Option ℕ) → ref < k → Safe k (register_stream id old ref w)
  register-Safe k id ref (some x) lt = refuse-Safe k go_away_proto_err duplicate_stream
  register-Safe k id ref none lt =
      >>=-Safe k (modify _) _
        (modify-Safe k _ (λ s v h. insert-Keeps id ref s (omega (arith, lt, h))))
        λ _. offer-Safe k id ref

  incoming_stream-Safe : (k id : ℕ) → Safe k (incoming_stream id w)
  unfolding incoming_stream
  incoming_stream-Safe k id = >>=-Safe k get _ (get-Safe k) λ s.
      if-Safe k (s.local_go_away == 1) _ _ (send_no_wait-Safe _ w fair k) (
        alloc-Safe k _ _ λ ref.
          >>=-Safe (suc ref) get _ (get-Safe (suc ref))
            λ t. register-Safe (suc ref) id ref (lookup id t.streams) (omega arith))

  or_go_away-Safe : (k : ℕ) (e : Option Error) → Safe k (or_go_away e w)
  or_go_away-Safe k none = return-Safe k none
  or_go_away-Safe k (some e) = refuse-Safe k go_away_proto_err e

deliver-some-Safe :
    (ref : ℕ) (hdr : Bytes) (w : Wait) → IsFair w → Safe (suc ref) (deliver (some ref) hdr w)
deliver-some-Safe ref hdr w fair =
    if-Safe (suc ref) (msg_type hdr == type_window_update) _ _
      (>>=-Safe (suc ref) (incr_send_window ref hdr (flags hdr)) _
        (incr_send_window-Safe (suc ref) ref (omega arith) hdr (flags hdr))
        λ e. or_go_away-Safe w fair (suc ref) e)
      (>>=-Safe (suc ref) (read_data ref hdr (flags hdr)) _
        (read_data-Safe (suc ref) ref (omega arith) hdr (flags hdr))
        λ e. or_go_away-Safe w fair (suc ref) e)

deliver-none-Safe : (k : ℕ) (hdr : Bytes) (w : Wait) → Safe k (deliver none hdr w)
deliver-none-Safe k hdr w =
    if-Safe k (msg_type hdr == type_data && ltb 0 (payload_length hdr)) _ _
      (>>=-Safe k (modify _) _ (modify-Safe k _ (λ s v h. drop-Keeps (payload_length hdr) s))
        λ _. return-Safe k none)
      (return-Safe k none)

deliver_found-Safe : (k : ℕ) (hdr : Bytes) (w : Wait) → IsFair w → Safe k (deliver_found hdr w)
deliver_found-Safe k hdr w fair s v h = elim (Option-cases (lookup (stream_id hdr) s.streams)) [
  | inl missing ↦ rw missing (deliver-none-Safe k hdr w s v h)
  | inr (ref, found) ↦
      rw found (deliver-some-Safe ref hdr w fair s v (v.mapped (stream_id hdr) ref found))
]

handle_stream_message-Safe :
    (k : ℕ) (hdr : Bytes) (w u : Wait)
    → IsFair w
    → IsFair u
    → Safe k (handle_stream_message hdr w u)
unfolding handle_stream_message
handle_stream_message-Safe k hdr w u fw fu =
    if-Safe k (has_flag (flags hdr) flag_syn) _ _
      (>>=-Safe k (incoming_stream (stream_id hdr) w) _
        (incoming_stream-Safe w fw k (stream_id hdr))
        λ e. unless_failed-Safe k e _ (deliver_found-Safe k hdr u fu))
      (deliver_found-Safe k hdr u fu)

answer_ping-Safe : (k id : ℕ) (o : Option ℕ) → Safe k (answer_ping o id)
answer_ping-Safe k id none = return-Safe k none
answer_ping-Safe k id (some ch) =
    >>=-Safe k (modify _) _
      (modify-Safe k _ (λ s v h. pings-Keeps (delete id s.pings) (ch ∷ s.closed_chans) s))
      λ _. return-Safe k none

handle_ping-Safe : (k : ℕ) (hdr : Bytes) (w : Wait) → IsFair w → Safe k (handle_ping hdr w)
unfolding handle_ping
handle_ping-Safe k hdr w fair =
    if-Safe k (has_flag (flags hdr) flag_syn) _ _
      (>>=-Safe k (send_no_wait _ w) _ (send_no_wait-Safe _ w fair k) λ _. return-Safe k none)
      (>>=-Safe k get _ (get-Safe k) λ s. answer_ping-Safe k (payload_length hdr) _)

handle_go_away-Safe : (k : ℕ) (hdr : Bytes) → Safe k (handle_go_away hdr)
unfolding handle_go_away
handle_go_away-Safe k hdr =
    if-Safe k (payload_length hdr == go_away_normal) _ _
      (>>=-Safe k (modify _) _ (modify-Safe k _ (λ s v h. flag_update-Keeps s.local_go_away 1 s))
        λ _. return-Safe k none)
      (if-Safe k (payload_length hdr == go_away_proto_err) _ _ (return-Safe k _) (
        if-Safe k (payload_length hdr == go_away_internal_err) _ _ (return-Safe k _)
          (return-Safe k _)))

pub dispatch-Safe :
    (k : ℕ) (hdr : Bytes) (w u : Wait) → IsFair w → IsFair u → Safe k (dispatch hdr w u)
unfolding dispatch
dispatch-Safe k hdr w u fw fu =
    if-Safe k (msg_type hdr == type_data) _ _ (handle_stream_message-Safe k hdr w u fw fu) (
      if-Safe k (msg_type hdr == type_window_update) _ _
        (handle_stream_message-Safe k hdr w u fw fu)
        (if-Safe k (msg_type hdr == type_go_away) _ _ (handle_go_away-Safe k hdr) (
          if-Safe k (msg_type hdr == type_ping) _ _ (handle_ping-Safe k hdr w fw)
            (return-Safe k (some invalid_msg_type)))))
