-- ===== src/Yamux/Send/Wire.antt =====
-- What a round of send puts on the connection.
use n6bagent.Prelude.{
  ◌≤◌, ◌<◌, ◌≡◌, ap, ◌∙◌, true, Option, none, some, List, [], ◌∷◌, ◌++◌, append-nil, append_assoc,
  length, length-drop, All, arith, take, drop, take-append-drop,
}
use n6bagent.Yamux.Header.{Bytes}
use n6bagent.Yamux.State.{Session, SendReady, ◌>>=◌}
use n6bagent.Yamux.Send.{
  ConnWrite, answers, write_header, write_body, send_ready, send_round, then_body, settle,
}

-- A write of the connection that takes something and does not fail.
abbrev pub Works : ConnWrite → Type 0
Works c = (0 < c.taken) × (c.failure ≡ none)

abbrev pub body_bytes : Option Bytes → Bytes
body_bytes none = []
body_bytes (some b) = b

abbrev pub emitted : Bytes → Session → Session
emitted b s = record s { output = s.output ++ b }

write_header_whole :
    (ws : List ConnWrite) (hdr : Bytes) (s : Session)
    → All Works ws
    → length hdr ≤ length ws
    → write_header hdr ws s ≡ some (answers none, emitted hdr s)
unfolding write_header
write_header_whole ws [] s all le = ground (arith, append-nil s.output)
write_header_whole [] (x ∷ hdr) s all le = absurd (omega arith)
write_header_whole (c ∷ ws) (x ∷ hdr) s (works, all) le =
    let cut = take c.taken (x ∷ hdr) in
    let rest = drop c.taken (x ∷ hdr) in
    rw works.1 (
      write_header_whole ws rest (emitted cut s) all
        (omega (arith, works.0, length-drop c.taken (x ∷ hdr)))
      ∙ ap (λ (b : Bytes). some (answers none, record s { output = b }))
          (append_assoc s.output cut rest
            ∙ ap (◌++◌ s.output) (take-append-drop c.taken (x ∷ hdr))))

body_whole :
    (body : Option Bytes) (c : ConnWrite) (s : Session) (hdr : Bytes)
    → c.failure ≡ none
    → (then_body body c (answers none) >>= settle) (emitted hdr s)
      ≡ some (answers none, record s { output = s.output ++ (hdr ++ body_bytes body) })
unfolding write_body
body_whole none c s hdr ok = ground (arith, append-nil hdr)
body_whole (some b) c s hdr ok = ground (arith, ok, append_assoc s.output hdr b)

-- However the connection splits the header, as long as its writes do not fail and each takes a
-- byte, a round of send puts the first queued frame on the connection, header before body, takes
-- it off the queue, and answers its sender with no error.
pub send_round_whole :
    (ws : List ConnWrite) (c : ConnWrite) (s : Session) (r : SendReady) (rest : List SendReady)
    → s.send_ch ≡ r ∷ rest
    → All Works ws
    → length r.hdr ≤ length ws
    → c.failure ≡ none
    → send_round true ws c s
      ≡ some (
        answers none,
        record s { send_ch = rest; output = s.output ++ (r.hdr ++ body_bytes r.body) },
      )
unfolding send_round send_ready
send_round_whole ws c s r rest e all le ok =
    ap (λ (q : List SendReady). send_ready q ws c s) e
    ∙ rw (write_header_whole ws r.hdr (record s { send_ch = rest }) all le, ◌>>=◌)
        (body_whole r.body c (record s { send_ch = rest }) r.hdr ok)
