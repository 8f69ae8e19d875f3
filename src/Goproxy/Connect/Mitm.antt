-- ===== src/Goproxy/Connect/Mitm.antt =====
-- https.go: the loops that read the requests of a client inside a CONNECT connection, over what
-- their connections give. The end of the list is a loop that waits for the next request.
pub mod Forwarding
use Prim.Native.String
use Prim.Native.String.{String}
use n6bagent.Prelude.{ℕ, Option, none, some, List, [], ◌∷◌}
use n6bagent.Goproxy.Chunked
use n6bagent.Goproxy.Http.{Request, Response, Error, Result, ok, err}
use n6bagent.Goproxy.State.{
  ◌>>=◌, ◌>>◌, M, return, emit, load_req, load_resp, new_req, new_resp, deref, writes,
  writes_request, writes_response, Dial, Proxy,
}
use n6bagent.Goproxy.Proxy.{filter_request, filter_response}
use n6bagent.Goproxy.Connect.{http_error, established, connect_dial}

-- A round of the plain loop: what ReadRequest gives, the error of the write of the request, the
-- response that is read, and the error of its write.
pub record Exchange : Type 0 where
  pub request : Result Request
  pub sent : Option Error
  pub response : Result Response
  pub written : Option Error

abbrev pub new_result : Result Response → M (Result ℕ)
new_result (err e) = return (err e)
new_result (ok a) = do x ← new_resp a; return (ok x)

-- The response to a request that is sent on the connection of the target.
abbrev pub ask : Exchange → ℕ → ℕ → M (Result ℕ)
ask x target r = do
  q ← load_req r
  emit (writes_request target q)
  elim x.sent [ some e ↦ return (err e) | none ↦ new_result x.response ]

abbrev pub ask_unless : Exchange → ℕ → Option ℕ → Option ℕ → M (Result ℕ)
ask_unless x target r (some resp) = return (ok resp)
ask_unless x target r none = do q ← deref r; ask x target q

-- The response goes to the client, and then `again` is the next round.
abbrev pub pass_on : Proxy → Exchange → ℕ → Result ℕ → M (Unit {0}) → M (Unit {0})
pass_on p x client (err e) again = http_error client
pass_on p x client (ok resp) again = do
  y ← filter_response p (some resp)
  z ← deref y
  a ← load_resp z
  emit (writes_response client a)
  elim x.written [ some e ↦ http_error client | none ↦ again ]

unfoldable pub http_loop : Proxy → ℕ → ℕ → List Exchange → M (Unit {0})
http_loop p client target [] = return tt
http_loop p client target (x ∷ xs) = elim x.request [
  | err e ↦ return tt
  | ok q ↦ do
    r ← new_req q
    y ← filter_request p r
    z ← ask_unless x target y.0 y.1
    pass_on p x client z (http_loop p client target xs)
]

abbrev pub http_target : Proxy → ℕ → Result ℕ → List Exchange → M (Unit {0})
http_target p client (err e) xs = return tt
http_target p client (ok target) xs = http_loop p client target xs

unfoldable pub mitm_http : Dial → Proxy → ℕ → String → List Exchange → M (Unit {0})
mitm_http net_dial p client host xs = do
  emit (writes client established)
  target ← connect_dial net_dial p "tcp" host
  http_target p client target xs
