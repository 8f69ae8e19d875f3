-- ===== src/Goproxy/Dispatcher.antt =====
-- dispatcher.go: conditions on requests and responses, and the handlers that are registered under
-- them.
pub mod Guards
use Prim.Native.String
use Prim.Native.String.{String}
use text.Mathlib.Text.{◌==◌, starts_with}
use n6bagent.Prelude.{
  ℕ, Bool, true, false, not, ◌||◌, Option, none, some, List, [], ◌∷◌, ◌++◌, if◌then◌else◌,
}
use n6bagent.Goproxy.Http.{Bytes, get, Request, Response}
use n6bagent.Goproxy.State.{
  ◌>>=◌, ◌>>◌, M, return, world, emit, load_req, load_resp, save_resp, deref, new_body, closes_body,
  ReqHandler, RespHandler, HttpsHandler, ConnectAction, ConnectActionLiteral, connect_reject,
  connect_mitm, connect_hijack, Proxy,
}

-- HandleReq on a pointer to a request, and HandleResp on one to a response, which may be nil.
abbrev pub ReqCondition : Type 0
ReqCondition = ℕ → M Bool

abbrev pub RespCondition : Type 0
RespCondition = Option ℕ → M Bool

-- ReqConditionFunc as a RespCondition: it tests the request of the context.
abbrev pub as_resp_condition : ReqCondition → RespCondition
as_resp_condition c resp = do s ← world; c s.ctx.req

-- A ReqConditionFunc that only looks at the request.
abbrev pub tests : (Request → Bool) → ReqCondition
tests f r = do q ← load_req r; return (f q)

abbrev pub mem : String → List String → Bool
mem s [] = false
mem s (t ∷ ts) = t == s || mem s ts

unfoldable pub url_has_prefix : String → Request → Bool
url_has_prefix prefix q =
    let u = q.url in
    starts_with u.path prefix
    || starts_with (String.◌++◌ (String.◌++◌ u.host "/") u.path) prefix
    || starts_with (String.◌++◌ (String.◌++◌ u.scheme u.host) u.path) prefix

unfoldable pub url_is : List String → Request → Bool
url_is urls q = mem q.url.path urls || mem (String.◌++◌ q.url.host q.url.path) urls

-- A regular expression is its MatchString.
abbrev pub Regexp : Type 0
Regexp = String → Bool

unfoldable pub req_host_matches : List Regexp → Request → Bool
req_host_matches [] q = false
req_host_matches (re ∷ res) q = re q.host || req_host_matches res q

unfoldable pub req_host_is : List String → Request → Bool
req_host_is hosts q = mem q.url.host hosts

-- `local_ipv4` is the regular expression `127\.0\.0\.\d+`.
unfoldable pub is_local_host : Regexp → Request → Bool
is_local_host local_ipv4 q =
    q.url.host == "::1"
    || q.url.host == "0:0:0:0:0:0:0:1"
    || local_ipv4 q.url.host
    || q.url.host == "localhost"

unfoldable pub url_matches : Regexp → Request → Bool
url_matches re q = re q.url.path || re (String.◌++◌ q.url.host q.url.path)

unfoldable pub dst_host_is : String → Request → Bool
dst_host_is host q = q.url.host == host

unfoldable pub src_ip_is : String → Request → Bool
src_ip_is ip q = starts_with q.remote_addr (String.◌++◌ ip ":")

unfoldable pub not_cond : ReqCondition → ReqCondition
not_cond c r = do b ← c r; return (not b)

abbrev pub is_one_of : String → List String → Bool
is_one_of t [] = false
is_one_of t (typ ∷ types) = t == typ || starts_with t (String.◌++◌ typ ";") || is_one_of t types

unfoldable pub content_type_is : String → List String → RespCondition
content_type_is typ types none = return false
content_type_is typ types (some x) = do
  a ← load_resp x
  return (is_one_of (get "Content-Type" a.header) (types ++ typ ∷ []))

-- `for _, cond := range conds { if !cond(…) { return … } }`
unfoldable pub all_hold : List (M Bool) → M Bool
all_hold [] = return true
all_hold (c ∷ cs) = do b ← c; if b then all_hold cs else return false

abbrev pub on_request : List ReqCondition → ℕ → List (M Bool)
on_request [] r = []
on_request (c ∷ cs) r = c r ∷ on_request cs r

abbrev pub on_response : List RespCondition → Option ℕ → List (M Bool)
on_response [] resp = []
on_response (c ∷ cs) resp = c resp ∷ on_response cs resp

-- The handler that ReqProxyConds.Do registers.
unfoldable pub guarded : List ReqCondition → ReqHandler → ReqHandler
guarded conds h r = do b ← all_hold (on_request conds r); if b then h r else return (some r, none)

unfoldable pub do_request : List ReqCondition → ReqHandler → Proxy → Proxy
do_request conds h p = record p { req_handlers = p.req_handlers ++ guarded conds h ∷ [] }

-- The handlers that HandleConnect and HijackConnect register.
unfoldable pub guarded_connect : List ReqCondition → HttpsHandler → HttpsHandler
guarded_connect conds h host = do
  s ← world
  b ← all_hold (on_request conds s.ctx.req)
  if b then h host else return (none, "")

unfoldable pub handle_connect : List ReqCondition → HttpsHandler → Proxy → Proxy
handle_connect conds h p = record p {
  https_handlers = p.https_handlers ++ guarded_connect conds h ∷ [];
}

abbrev pub plain_action : ConnectActionLiteral → ConnectAction
plain_action a = record { action = a; tls_config = none; ca = none; hijack = none }

unfoldable pub hijack_connect : List ReqCondition → (ℕ → ℕ → M (Unit {0})) → Proxy → Proxy
hijack_connect conds f p =
    let todo = record (plain_action connect_hijack) { hijack = some f } in
    handle_connect conds (λ host. return (some todo, host)) p

-- The handler that ProxyConds.Do registers.
unfoldable pub guarded_response : List ReqCondition → List RespCondition → RespHandler → RespHandler
guarded_response req_conds resp_conds h resp = do
  s ← world
  b ← all_hold (on_request req_conds s.ctx.req)
  if b
      then (do c ← all_hold (on_response resp_conds resp); if c then h resp else return resp)
      else return resp

unfoldable pub do_response : List RespCondition → RespHandler → Proxy → Proxy
do_response conds h p = record p {
  resp_handlers = p.resp_handlers ++ guarded_response [] conds h ∷ [];
}

unfoldable pub always_mitm : HttpsHandler
always_mitm host = return (some (plain_action connect_mitm), host)

unfoldable pub always_reject : HttpsHandler
always_reject host = return (some (plain_action connect_reject), host)

-- HandleBytes. What was read of a body that breaks off is lost to later readers.
unfoldable pub read_all : ℕ → Response → (Bytes → M Bytes) → M (Option ℕ)
read_all x a f = elim a.body.broken [
  | some e ↦ save_resp x (record a { body = record a.body { content = [] } }) >> return (some x)
  | none ↦ do
    emit (closes_body a.body.ident)
    b ← f a.body.content
    n ← new_body
    c ← load_resp x
    save_resp x (record c { body = record { ident = n; content = b; broken = none } })
    return (some x)
]

unfoldable pub handle_bytes : (Bytes → M Bytes) → RespHandler
unfolding read_all
handle_bytes f resp = do x ← deref resp; a ← load_resp x; read_all x a f
