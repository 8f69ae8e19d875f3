-- ===== src/Yamux/Send/Answered.antt =====
-- What a round of send has done when it answers its sender with no error.
use n6bagent.Prelude.{
  ◌≡◌, refl, ap, ◌∙◌, true, Option, none, some, List, [], ◌∷◌, ◌++◌, append-nil, append_assoc,
  arith, take, drop, take-append-drop, Option-cases, inl, inr,
}
use n6bagent.Yamux.Header.{Bytes}
use n6bagent.Yamux.State.{Session, SendReady, ◌>>=◌}
use n6bagent.Yamux.Send.{
  ConnWrite, Round, idle, in_write, stops, answers, write_header, write_body, send_ready,
  send_round, then_body, settle,
}
use n6bagent.Yamux.Send.Wire.{body_bytes, emitted}

header_answered :
    (ws : List ConnWrite) (hdr : Bytes) (s u : Session)
    → write_header hdr ws s ≡ some (answers none, u)
    → u ≡ emitted hdr s
unfolding write_header
header_answered ws [] s u e = ground (arith, append-nil s.output)
header_answered [] (x ∷ hdr) s u e = cc
header_answered (c ∷ ws) (x ∷ hdr) s u e = elim (Option-cases c.failure) [
  | inl ok ↦
      let cut = take c.taken (x ∷ hdr) in
      let rest = drop c.taken (x ∷ hdr) in
      header_answered ws rest (emitted cut s) u (ground (arith, e, ok))
      ∙ ap (λ (b : Bytes). record s { output = b })
          (append_assoc s.output cut rest ∙ ap (◌++◌ s.output) (take-append-drop c.taken (x ∷ hdr)))
  | inr (f, failed) ↦ ground (arith, e, failed)
]

body_answered :
    (body : Option Bytes) (c : ConnWrite) (s u : Session)
    → (write_body body c >>= settle) s ≡ some (answers none, u)
    → u ≡ emitted (body_bytes body) s
unfolding write_body
body_answered none c s u e = ground (arith, append-nil s.output)
body_answered (some b) c s u e = elim (Option-cases c.failure) [
  | inl ok ↦ ground (arith, e, ok)
  | inr (f, failed) ↦ ground (arith, e, failed)
]

-- What comes behind the header, for each of its ends.
after_header :
    (hdr : Bytes) (ws : List ConnWrite) (body : Option Bytes) (c : ConnWrite) (s t u : Session)
    (h : Round)
    → write_header hdr ws s ≡ some (h, t)
    → (then_body body c h >>= settle) t ≡ some (answers none, u)
    → u ≡ emitted (body_bytes body) (emitted hdr s)
after_header hdr ws body c s t u idle eh e = cc
after_header hdr ws body c s t u in_write eh e = cc
after_header hdr ws body c s t u stops eh e = cc
after_header hdr ws body c s t u (answers (some x)) eh e = cc
after_header hdr ws body c s t u (answers none) eh e =
    body_answered body c t u e ∙ ap (emitted (body_bytes body)) (header_answered ws hdr s t eh)

ready_answered :
    (q : List SendReady) (ws : List ConnWrite) (c : ConnWrite) (s u : Session)
    → send_ready q ws c s ≡ some (answers none, u)
    → (r : SendReady) × (rest : List SendReady) × (q ≡ r ∷ rest)
      × (u ≡ record s { send_ch = rest; output = s.output ++ (r.hdr ++ body_bytes r.body) })
unfolding send_ready
ready_answered [] ws c s u e = cc
ready_answered (r ∷ rest) ws c s u e =
    let t : Session = record s { send_ch = rest } in
    elim (Option-cases (write_header r.hdr ws t)) [
      | inl gone ↦ ground (arith, e, gone)
      | inr ((h, v), eh) ↦ (
        r,
        rest,
        refl,
        after_header r.hdr ws r.body c t v u h eh (ground (arith, e, eh))
            ∙ ap (λ (b : Bytes). record t { output = b })
                (append_assoc s.output r.hdr (body_bytes r.body)),
      )
    ]

-- A round of send that answers with no error has taken the first frame off the queue and put all of
-- it on the connection, header before body.
pub send_answered :
    (ws : List ConnWrite) (c : ConnWrite) (s u : Session)
    → send_round true ws c s ≡ some (answers none, u)
    → (r : SendReady) × (rest : List SendReady) × (s.send_ch ≡ r ∷ rest)
      × (u ≡ record s { send_ch = rest; output = s.output ++ (r.hdr ++ body_bytes r.body) })
unfolding send_round
send_answered ws c s u e = ready_answered s.send_ch ws c s u e
