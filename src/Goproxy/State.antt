-- ===== src/Goproxy/State.antt =====
-- ctx.go, actions.go, and the structs of proxy.go and https.go: the context of a request, the
-- handlers of a proxy, and what both change.
--
-- Requests and responses are shared by pointer between the proxy and its handlers, so the world has
-- a store of each, and a pointer is a position in it. A method is a function from a world to its
-- result and the new world; `none` is a panic. A handler is any such function. Log lines are left out.
use Prim.Native.String.{String}
use n6bagent.Prelude.{
  ℕ, ◌+◌, ◌%◌, ◌^◌, Bool, Option, none, some, List, [], ◌∷◌, ◌++◌, get_elem?, length,
}
use n6bagent.Prelude
use n6bagent.Goproxy.Http.{Bytes, Header, Request, Response, Error, Result}

-- ProxyCtx; `round_tripper` is a number of the round tripper that a handler has set, and UserData,
-- which the proxy does not read, is left out.
pub record Ctx : Type 0 where
  pub req : ℕ
  pub resp : Option ℕ
  pub round_tripper : Option ℕ
  pub error : Option Error
  pub session : ℕ  -- int64

-- A connection is a number. `to_client_*` is done on the ResponseWriter of a plain request, and
-- `starts_copy` starts a goroutine that copies to the first connection from the second.
pub data Effect : Type 0 where
  to_client_error : String → ℕ → Effect
  to_client_header : Header → ℕ → Effect
  to_client_body : Bytes → Effect
  closes_body : ℕ → Effect
  writes : ℕ → String → Effect
  writes_header : ℕ → Header → Effect
  writes_request : ℕ → Request → Effect
  writes_response : ℕ → Response → Effect
  writes_body : ℕ → Bytes → Effect
  copies : ℕ → ℕ → Effect
  starts_copy : ℕ → ℕ → Effect
  closes : ℕ → Effect

-- `sess` is the counter of the proxy, `bodies` the number of bodies that were made, `w_header` the header of the ResponseWriter, and `effects`
-- what was done so far.
pub record World : Type 0 where
  pub requests : List Request
  pub responses : List Response
  pub ctx : Ctx
  pub sess : ℕ  -- int64
  pub bodies : ℕ
  pub w_header : Header
  pub effects : List Effect

abbrev pub M {ℓ} : Type ℓ → Type ℓ
M A = World → Option (A × World)

infixl 5 ◌>>=◌ ◌>>◌
abbrev pub ◌>>=◌ {ℓ κ} : {A : Type ℓ} {B : Type κ} → M A → (A → M B) → M B
◌>>=◌ m f s = elim (m s) [ none ↦ none | some (a, s') ↦ f a s' ]

abbrev pub ◌>>◌ {ℓ κ} : {A : Type ℓ} {B : Type κ} → M A → M B → M B
m >> k = m >>= λ _. k

abbrev pub return {ℓ} : {A : Type ℓ} → A → M A
return a s = some (a, s)

abbrev pub panic {ℓ} : {A : Type ℓ} → M A
panic s = none

abbrev pub world : M World
world s = some (s, s)

abbrev pub modify : (World → World) → M (Unit {0})
modify f s = some (tt, f s)

abbrev pub emit : Effect → M (Unit {0})
emit e s = some (tt, record s { effects = s.effects ++ e ∷ [] })

-- Reads and writes through pointers.
abbrev pub load_req : ℕ → M Request
load_req r s = elim (get_elem? s.requests r) [ none ↦ none | some q ↦ some (q, s) ]

abbrev pub save_req : ℕ → Request → M (Unit {0})
save_req r q s = some (tt, record s { requests = Prelude.set s.requests r q })

abbrev pub load_resp : ℕ → M Response
load_resp x s = elim (get_elem? s.responses x) [ none ↦ none | some a ↦ some (a, s) ]

abbrev pub save_resp : ℕ → Response → M (Unit {0})
save_resp x a s = some (tt, record s { responses = Prelude.set s.responses x a })

abbrev pub new_resp : Response → M ℕ
new_resp a s = some (length s.responses, record s { responses = s.responses ++ a ∷ [] })

-- The number of a new body.
abbrev pub new_body : M ℕ
new_body s = some (s.bodies, record s { bodies = s.bodies + 1 })

abbrev pub new_req : Request → M ℕ
new_req q s = some (length s.requests, record s { requests = s.requests ++ q ∷ [] })

-- A pointer that is followed at once; nil panics.
abbrev pub deref : Option ℕ → M ℕ
deref none = panic
deref (some x) = return x

-- `&ProxyCtx{Req: r, Session: atomic.AddInt64(&proxy.sess, 1), proxy: proxy}`
abbrev pub new_ctx : ℕ → M (Unit {0})
new_ctx r s =
    let n = (s.sess + 1) % 2 ^ 64 in
    let c : Ctx = record {
      req = r;
      resp = none;
      round_tripper = none;
      error = none;
      session = n;
    } in
    some (tt, record s { sess = n; ctx = c })

-- Pointers that may be nil.
abbrev pub ReqHandler : Type 0
ReqHandler = ℕ → M (Option ℕ × Option ℕ)

abbrev pub RespHandler : Type 0
RespHandler = Option ℕ → M (Option ℕ)

pub data ConnectActionLiteral : Type 0 where
  connect_accept connect_reject connect_mitm connect_hijack connect_http_mitm : ConnectActionLiteral

-- The configuration and the certificate are numbers of such objects. Hijack gets the request and
-- the connection.
pub record ConnectAction : Type 0 where
  pub action : ConnectActionLiteral
  pub tls_config : Option ℕ
  pub ca : Option ℕ
  pub hijack : Option (ℕ → ℕ → M (Unit {0}))

abbrev pub HttpsHandler : Type 0
HttpsHandler = String → M (Option ConnectAction × String)

-- A network and an address.
abbrev pub Dial : Type 0
Dial = String → String → M (Result ℕ)

-- ProxyHttpServer, with the `Dial` of its transport; the transport itself is in `Net`.
pub record Proxy : Type 0 where
  pub verbose : Bool
  pub req_handlers : List ReqHandler
  pub resp_handlers : List RespHandler
  pub https_handlers : List HttpsHandler
  pub tr_dial : Option Dial
  pub connect_dial : Option Dial

-- What the proxy uses of the transport and of the handlers' round trippers: the response to a
-- request, or an error.
pub record Transport : Type 0 where
  pub round_trip : ℕ → M (Result ℕ)
  pub custom_round_trip : ℕ → ℕ → M (Result ℕ)

-- ctx.go, RoundTrip.
unfoldable pub round_trip : Transport → ℕ → M (Result ℕ)
round_trip tr r = do
  s ← world
  elim s.ctx.round_tripper [ some f ↦ tr.custom_round_trip f r | none ↦ tr.round_trip r ]
