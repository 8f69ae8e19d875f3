-- ===== src/Websocket/Conn/Total.antt =====
-- The loop of Read ends.
use n6bagent.Prelude.{
  ℕ, zero, suc, ◌+◌, ◌*◌, ◌≤◌, ◌<◌, ◌≡◌, ◌≢◌, refl, sym, subst, Bool, true, false, none, some, [],
  ◌∷◌, length, length-drop, drop, take, min, arith, ◌⊎◌, Option-cases, Bool-cases, inl, inr, ◌==◌,
  leb,
}
use n6bagent.Websocket.Base.{Error, close_frame, pong_frame, max_control_frame_payload_length}
use n6bagent.Websocket.Frame.{
  Bytes, FrameHeader, Read, got, failed, Reader, ◌>>=◌, read_length, read_payload_length, read_key,
  read_header, pure, read_byte,
}
use n6bagent.Websocket.Conn.{
  Conn, FrameReader, Out, frame_read, write_close, write_frame, write_pong, new_reader, unmask,
}
use n6bagent.Websocket.Conn.Handler.{
  Handled, to_read, skipped, stopped, next_frame, handle_frame, by_type, got_header,
}
use n6bagent.Websocket.Conn.Reading.{
  Turn, ReadResult, spent, read, read_from, after_frame, after_read,
}

-- A reader that succeeds leaves no more than it found.
abbrev Shrinks {ℓ} : {A : Type ℓ} → Reader A → Type ℓ
Shrinks {A} m =
    (bs : Bytes) (e : Error) (a : A) (rest : Bytes) → m bs e ≡ got a rest → length rest ≤ length bs

bind-Shrinks {ℓ κ} :
    {A : Type ℓ} {B : Type κ} (m : Reader A) (f : A → Reader B)
    → Shrinks m
    → ((a : A) → Shrinks (f a))
    → Shrinks (m >>= f)
bind-Shrinks m f p q bs e b rest h = go (m bs e) refl
  where
    go : (r : Read _) → m bs e ≡ r → length rest ≤ length bs
    go (failed x) g = cc (rw (g, ◌>>=◌) at h)
    go (got a mid) g = omega (arith, p bs e a mid g, q a mid e b rest (rw (g, ◌>>=◌) at h))

pure-Shrinks {ℓ} : {A : Type ℓ} (a : A) → Shrinks (pure a)
pure-Shrinks a bs e b rest h = ground arith

read_byte-Shrinks : Shrinks read_byte
read_byte-Shrinks [] e a rest h = cc
read_byte-Shrinks (b ∷ bs) e a rest h = ground arith

read_length-Shrinks : (k acc : ℕ) → Shrinks (read_length k acc)
unfolding read_length
read_length-Shrinks zero acc = pure-Shrinks acc
read_length-Shrinks (suc k) acc =
    bind-Shrinks read_byte _ read_byte-Shrinks λ b. read_length-Shrinks k _

payload_length-Shrinks : (b : ℕ) → Shrinks (read_payload_length b)
unfolding read_payload_length
payload_length-Shrinks b = elim (Bool-cases (leb b 125)) [
  | inl short ↦ rw short (pure-Shrinks b)
  | inr long ↦ elim (Bool-cases (b == 126)) [
    | inl two ↦ rw (long, two) (read_length-Shrinks 2 0)
    | inr eight ↦ rw (long, eight) (read_length-Shrinks 8 0)
  ]
]

read_key-Shrinks : (m : Bool) → Shrinks (read_key m)
unfolding read_key
read_key-Shrinks false = pure-Shrinks none
read_key-Shrinks true =
    bind-Shrinks _ _
      (bind-Shrinks read_byte _ read_byte-Shrinks λ a.
        bind-Shrinks read_byte _ read_byte-Shrinks λ b.
          bind-Shrinks read_byte _ read_byte-Shrinks
            λ c. bind-Shrinks read_byte _ read_byte-Shrinks λ d. pure-Shrinks (a ∷ b ∷ c ∷ d ∷ []))
      λ key. pure-Shrinks (some key)

-- A header takes two bytes at least.
read_header_takes :
    (bs : Bytes) (e : Error) (h : FrameHeader) (rest : Bytes)
    → read_header bs e ≡ got h rest
    → length rest + 2 ≤ length bs
unfolding read_header
read_header_takes [] e h rest eq = cc
read_header_takes (b ∷ []) e h rest eq = cc
read_header_takes (b0 ∷ b1 ∷ bs) e h rest eq = omega (
  arith,
  bind-Shrinks (read_payload_length _) _ (payload_length-Shrinks _)
      (λ n. bind-Shrinks (read_key _) _ (read_key-Shrinks _) λ key. pure-Shrinks _) bs e h rest eq,
)

write_frame-input :
    (op : ℕ) (msg : Bytes) (out : Out) (c : Conn) → (write_frame op msg out c).0.input ≡ c.input
unfolding write_frame
write_frame-input op msg out c = ground arith

-- HandleFrame puts nothing back into the input.
handle_frame-input :
    (f : FrameReader) (out : Out) (c : Conn)
    → length (handle_frame f out c).0.input ≤ length c.input
unfolding handle_frame by_type write_close write_pong
handle_frame-input f out c = ground (
  arith,
  length-drop f.remaining c.input,
  write_frame-input close_frame (3 ∷ 234 ∷ []) out c,
  write_frame-input pong_frame
      (unmask f.header.masking_key f.pos
        (take (min max_control_frame_payload_length f.remaining) c.input))
      out (record c { input = drop f.remaining c.input }),
)

pub got_header-input :
    (r : Read FrameHeader) (out : Out) (c : Conn)
    → read_header c.input c.input_end ≡ r
    → ((e : Error) × ((got_header r out c).1 ≡ stopped e))
      ⊎ (length (got_header r out c).0.input + 2 ≤ length c.input)
got_header-input (failed e) out c h = inl (e, refl)
got_header-input (got h rest) out c eq = inr (
    omega (
      arith,
      read_header_takes c.input c.input_end h rest eq,
      handle_frame-input (new_reader h) out (record c { input = rest }),
    ))

-- The loop goes on only with the input that it had, and with no frame.
after_read-total :
    (n k : ℕ) (f : FrameReader) (c : Conn) (again : Conn → Conn × ReadResult)
    → (again (record c { frame = none })).1 ≢ spent
    → (after_read (frame_read n k f c) again).1 ≢ spent
unfolding after_read frame_read
after_read-total n k f c again h = ground arith

after_frame-total :
    (n k : ℕ) (r : Conn × Handled) (again : Conn → Conn × ReadResult) (size : ℕ)
    → ((e : Error) × (r.1 ≡ stopped e)) ⊎ (length r.0.input + 2 ≤ size)
    → ((c : Conn) → c.frame ≡ none → length c.input + 2 ≤ size → (again c).1 ≢ spent)
    → (after_frame n k r again).1 ≢ spent
unfolding after_frame
after_frame-total n k (c, stopped e) again size h more = ground arith
after_frame-total n k (c, skipped) again size (inl (e, h)) more = cc
after_frame-total n k (c, skipped) again size (inr h) more = more (record c { frame = none }) refl h
after_frame-total n k (c, to_read f) again size (inl (e, h)) more = cc
after_frame-total n k (c, to_read f) again size (inr h) more =
    after_read-total n k f (record c { frame = some f }) again
      (more (record c { frame = none }) refl h)

-- With no frame at hand one round is enough for every two bytes of the input, and one more.
read-total_none :
    (fuel n : ℕ) (turns : ℕ → Turn) (c : Conn)
    → c.frame ≡ none
    → length c.input < 2 * fuel
    → (read fuel n turns c).1 ≢ spent
unfolding read read_from next_frame
read-total_none zero n turns c none_yet lt = absurd (omega arith)
read-total_none (suc fuel) n turns c none_yet lt =
    subst (λ o. (read_from n (turns fuel) o c (read fuel n turns)).1 ≢ spent) (sym none_yet)
      (after_frame-total n (turns fuel).gives (next_frame (turns fuel).out c) (read fuel n turns)
        (length c.input)
        (got_header-input (read_header c.input c.input_end) (turns fuel).out c refl)
        (λ d bare less. read-total_none fuel n turns d bare (omega (arith, less))))

-- A Read ends on every input, whatever the connection gives at once and whatever becomes of the
-- frames that it writes: the loop has fuel enough with a round for every two bytes and two more.
pub read-total :
    (fuel n : ℕ) (turns : ℕ → Turn) (c : Conn)
    → length c.input + 2 < 2 * fuel
    → (read fuel n turns c).1 ≢ spent
unfolding read read_from
read-total zero n turns c lt = absurd (omega arith)
read-total (suc fuel) n turns c lt = elim (Option-cases c.frame) [
  | inl bare ↦ read-total_none (suc fuel) n turns c bare (omega arith)
  | inr (f, some_frame) ↦
      subst (λ o. (read_from n (turns fuel) o c (read fuel n turns)).1 ≢ spent) (sym some_frame)
        (after_read-total n (turns fuel).gives f c (read fuel n turns)
          (read-total_none fuel n turns (record c { frame = none }) refl (omega arith)))
]
