-- ===== src/Goproxy/Connect/Mitm/Forwarding.antt =====
-- What the plain loop passes on.
use Prim.Native.String.{String}
use n6bagent.Prelude.{ℕ, ◌≡◌, none, some, List, [], ◌∷◌, arith}
use n6bagent.Goproxy.Http.{Request, Response, Error, ok, err}
use n6bagent.Goproxy.State.{World, Effect, writes, writes_request, writes_response, Dial, Proxy}
use n6bagent.Goproxy.Proxy.Serving.{did}
use n6bagent.Goproxy.Connect.{connect_dial, established}
use n6bagent.Goproxy.Connect.Mitm.{Exchange, mitm_http}

-- A round in which everything works.
abbrev pub works : Request × Response → Exchange
works (q, a) = record { request = ok q; sent = none; response = ok a; written = none }

abbrev pub passes : ℕ → ℕ → List (Request × Response) → List Effect
passes client target [] = []
passes client target ((q, a) ∷ xs) =
    writes_request target q ∷ writes_response client a ∷ passes client target xs

-- If the target of a plain loop cannot be reached, the client has been told that it is connected,
-- and its connection is left open.
pub mitm_http_unreachable :
    (net_dial : Dial) (p : Proxy) (client : ℕ) (host : String) (xs : List Exchange) (e : Error)
    (s t : World)
    → connect_dial net_dial p "tcp" host (did (writes client established ∷ []) s) ≡ some (err e, t)
    → mitm_http net_dial p client host xs s ≡ some (tt, t)
unfolding mitm_http
mitm_http_unreachable net_dial p client host xs e s t failed = ground (arith, failed)
