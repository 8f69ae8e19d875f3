-- ===== src/Goproxy/Proxy.antt =====
-- proxy.go: the filters of requests and responses, and the answer to a plain request.
pub mod Headers
pub mod Filters
pub mod Serving
use Prim.Native.String.{String}
use text.Mathlib.Text.{◌==◌}
use n6bagent.Prelude
use n6bagent.Prelude.{ℕ, Bool, not, Option, none, some, List, [], ◌∷◌, if◌then◌else◌}
use n6bagent.Goproxy.Http.{Header, del, add, Url, Request, Error, Body, Response, Result, ok, err}
use n6bagent.Goproxy.State.{
  ◌>>=◌, ◌>>◌, M, return, world, modify, emit, load_req, save_req, load_resp, save_resp, deref,
  new_ctx, to_client_error, to_client_header, to_client_body, closes_body, ReqHandler, RespHandler,
  Proxy, Transport, round_trip,
}

-- `for k := range dst { dst.Del(k) }`
unfoldable pub del_all : Header → Header → Header
unfolding del
del_all [] h = h
del_all ((k, vs) ∷ ks) h = del_all ks (del k h)

unfoldable pub add_all : String → List String → Header → Header
add_all k [] h = h
add_all k (v ∷ vs) h = add_all k vs (add k v h)

unfoldable pub add_headers : Header → Header → Header
add_headers [] h = h
add_headers ((k, vs) ∷ src) h = add_headers src (add_all k vs h)

-- copyHeaders: the new value of `dst`.
unfoldable pub copy_headers : Header → Header → Header
copy_headers dst src = add_headers src (del_all dst dst)

-- filterRequest from a handler on; `req` is what the handler before has returned.
unfoldable pub filter_loop : List ReqHandler → ℕ → Option ℕ → M (Option ℕ × Option ℕ)
filter_loop [] r req = return (req, none)
filter_loop (h ∷ hs) r req = do
  x ← h r
  elim x.1 [ some resp ↦ return (x.0, some resp) | none ↦ filter_loop hs r x.0 ]

unfoldable pub filter_request : Proxy → ℕ → M (Option ℕ × Option ℕ)
unfolding filter_loop
filter_request p r = filter_loop p.req_handlers r (some r)

unfoldable pub response_loop : List RespHandler → Option ℕ → M (Option ℕ)
response_loop [] resp = return resp
response_loop (h ∷ hs) resp = do
  modify λ s. record s { ctx = record s.ctx { resp = resp } }
  resp' ← h resp
  response_loop hs resp'

unfoldable pub filter_response : Proxy → Option ℕ → M (Option ℕ)
unfolding response_loop
filter_response p resp = response_loop p.resp_handlers resp

-- removeProxyHeaders on the request itself.
unfoldable pub without_proxy_headers : Request → Request
without_proxy_headers q = record q {
  request_uri = "";
  header = del "Connection" (del "Proxy-Connection" (del "Accept-Encoding" q.header));
}

unfoldable pub remove_proxy_headers : ℕ → M (Unit {0})
unfolding without_proxy_headers
remove_proxy_headers r = do q ← load_req r; save_req r (without_proxy_headers q)

-- `r.URL.IsAbs()`
abbrev pub is_abs : Url → Bool
is_abs u = not (u.scheme == "")

-- `e.Error()`
abbrev pub message : Error → String
message Error.eof = "EOF"
message Error.short_write = "short write"
message (Error.failure m) = m

-- What becomes of a request that is to be sent: the response that is filtered further, or none if
-- the client was answered.
unfoldable pub after_round_trip : Proxy → Result ℕ → M (Option ℕ)
after_round_trip p (ok resp) = return (some resp)
after_round_trip p (err e) = do
  modify λ s. record s { ctx = record s.ctx { error = some e } }
  resp ← filter_response p none
  elim resp [
    | none ↦ emit (to_client_error (message e) 500) >> return none
    | some x ↦ return (some x)
  ]

unfoldable pub send_request : Transport → Proxy → Option ℕ → M (Option ℕ)
send_request tr p r = do
  q ← deref r
  remove_proxy_headers q
  x ← round_trip tr q
  after_round_trip p x

unfoldable pub obtain : Transport → Proxy → Option ℕ → Option ℕ → M (Option ℕ)
obtain tr p r (some resp) = return (some resp)
obtain tr p r none = send_request tr p r

-- `resp.Header.Del("Content-Length")` if the body is another than before.
abbrev pub fresh_length : Body → Response → Response
fresh_length body a =
    if Prelude.◌==◌ body.ident a.body.ident
    then a
    else record a { header = del "Content-Length" a.header }

-- From `origBody := resp.Body` on.
unfoldable pub respond : Proxy → ℕ → M (Unit {0})
unfolding copy_headers
respond p resp = do
  orig ← load_resp resp
  resp' ← filter_response p (some resp)
  x ← deref resp'
  a ← load_resp x
  save_resp x (fresh_length orig.body a)
  s ← world
  let h = copy_headers s.w_header (fresh_length orig.body a).header
  modify λ s. record s { w_header = h }
  emit (to_client_header h a.status_code)
  emit (to_client_body a.body.content)
  emit (closes_body a.body.ident)

-- ServeHTTP of a request whose method is not CONNECT.
unfoldable pub serve_plain : Transport → Proxy → ℕ → M (Unit {0})
serve_plain tr p r = do
  new_ctx r
  q ← load_req r
  if is_abs q.url
      then (do
        x ← filter_request p r
        resp ← obtain tr p x.0 x.1
        elim resp [ none ↦ return tt | some a ↦ respond p a ])
      else emit
          (to_client_error "This is a proxy server, does not response to non-proxy requests" 500)
