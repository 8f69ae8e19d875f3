-- ===== src/Goproxy/Dialer/Through.antt =====
-- What a connection through another proxy is.
use Prim.Native.String.{String}
use n6bagent.Prelude.{
  ℕ, ◌≡◌, ◌≢◌, refl, ap, ◌∙◌, ==_iff, ◌⊎◌, inl, inr, true, false, Option, none, some, List, [], ◌∷◌,
  ◌++◌, append_assoc, arith, Bool-cases, if◌then◌else◌,
}
use n6bagent.Prelude
use n6bagent.Goproxy.Http.{Error, Result, ok, err}
use n6bagent.Goproxy.State.{World, ◌>>=◌, writes, closes, Dial, Proxy}
use n6bagent.Goproxy.Connect.{dial}
use n6bagent.Goproxy.Proxy.Serving.{did}
use n6bagent.Goproxy.Dialer.{Outside, dial_through, refusal}

-- When the other proxy is reached, it is asked for the address on the connection. Its status 200
-- makes this connection the result, left open; otherwise the connection is closed and the result is
-- an error.
pub dial_through_lem :
    (out : Outside) (net_dial : Dial) (p : Proxy) (wrap : ℕ → ℕ) (cut : String → String)
    (host network addr : String) (c : ℕ) (s t : World)
    → dial net_dial p network host s ≡ some (ok c, t)
    → let asked = did (writes (wrap c) (out.connect_request addr) ∷ []) t in
      ((body : String) × (out.read_response (wrap c) ≡ ok (200, body))
        × (dial_through out net_dial p wrap cut host network addr s ≡ some (ok (wrap c), asked)))
      ⊎ ((e : Error) × (dial_through out net_dial p wrap cut host network addr s
            ≡ some (err e, did (closes (wrap c) ∷ []) asked)))
unfolding dial_through
dial_through_lem out net_dial p wrap cut host network addr c s t reached =
    go (out.read_response (wrap c)) refl
  where
    asked : World
    asked = did (writes (wrap c) (out.connect_request addr) ∷ []) t

    go :
        (x : Result (ℕ × String))
        → out.read_response (wrap c) ≡ x
        → ((body : String) × (out.read_response (wrap c) ≡ ok (200, body))
            × (dial_through out net_dial p wrap cut host network addr s
                ≡ some (ok (wrap c), asked)))
          ⊎ ((e : Error) × (dial_through out net_dial p wrap cut host network addr s
                ≡ some (err e, did (closes (wrap c) ∷ []) asked)))
    go (err e) got = inr (e, rw (reached, ◌>>=◌) (rw got))
    go (ok (status, body)) got = elim (Bool-cases (Prelude.◌==◌ status 200)) [
      | inl fine ↦ inl (
        body,
        got ∙ ap (λ (k : ℕ). ok (k, body)) ((==_iff status 200).0 fine),
        rw (reached, ◌>>=◌) (rw got (rw fine)),
      )
      | inr bad ↦ inr (refusal (cut body), rw (reached, ◌>>=◌) (rw got (rw bad)))
    ]
