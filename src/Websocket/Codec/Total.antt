-- ===== src/Websocket/Codec/Total.antt =====
-- Receive ends.
use n6bagent.Prelude.{
  ℕ, zero, suc, ◌+◌, ◌*◌, ◌≤◌, ◌<◌, ◌≡◌, ◌≢◌, ◌⊎◌, refl, Option, none, length, length-drop, drop,
  arith, Option-cases, inl, inr,
}
use n6bagent.Websocket.Base.{Error}
use n6bagent.Websocket.Frame.{read_header}
use n6bagent.Websocket.Conn.{Conn, Out}
use n6bagent.Websocket.Conn.Handler.{Handled, to_read, skipped, stopped, next_frame}
use n6bagent.Websocket.Conn.Total.{got_header-input}
use n6bagent.Websocket.Codec.{
  Codec, Received, receive, receive_loop, on_frame, discard_frame, read_all,
}

module _ {ℓ κ} {V : Type ℓ} {W : Type κ} (cd : Codec V W) where
  on_frame-total :
      (x : Conn × Handled) (again : Conn → Conn × Option (Received W)) (size : ℕ)
      → ((e : Error) × (x.1 ≡ stopped e)) ⊎ (length x.0.input + 2 ≤ size)
      → ((c : Conn) → length c.input + 2 ≤ size → (again c).1 ≢ none)
      → (on_frame cd x again).1 ≢ none
  unfolding read_all
  on_frame-total (c, stopped e) again size h more = ground arith
  on_frame-total (c, skipped) again size (inl (e, h)) more = cc
  on_frame-total (c, skipped) again size (inr h) more = more c h
  on_frame-total (c, to_read f) again size h more = ground arith

  loop-total :
      (fuel : ℕ) (outs : ℕ → Out) (c : Conn)
      → length c.input < 2 * fuel
      → (receive_loop cd fuel outs c).1 ≢ none
  unfolding receive_loop next_frame
  loop-total zero outs c lt = absurd (omega arith)
  loop-total (suc fuel) outs c lt =
      on_frame-total (next_frame (outs fuel) c) (receive_loop cd fuel outs) (length c.input)
        (got_header-input (read_header c.input c.input_end) (outs fuel) c refl)
        (λ d less. loop-total fuel outs d (omega (arith, less)))

  -- Receive ends on every input, with a round for every two bytes and one more.
  pub receive-total :
      (fuel : ℕ) (outs : ℕ → Out) (c : Conn)
      → length c.input < 2 * fuel
      → (receive cd fuel outs c).1 ≢ none
  unfolding receive discard_frame read_all
  receive-total fuel outs c lt = elim (Option-cases c.frame) [
    | inl bare ↦ ground (arith, bare, loop-total fuel outs c lt)
    | inr (f, there) ↦ ground (
      arith,
      there,
      loop-total fuel outs (record c { input = drop f.remaining c.input; frame = none })
          (omega (arith, length-drop f.remaining c.input)),
    )
  ]
