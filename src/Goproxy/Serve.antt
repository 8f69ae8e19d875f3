-- ===== src/Goproxy/Serve.antt =====
-- https.go, proxy.go: handleHttps and ServeHTTP as a whole.
pub mod Outcomes
use Prim.Native.String.{String}
use text.Mathlib.Text.{◌==◌}
use n6bagent.Prelude.{ℕ, Option, none, some, List, if◌then◌else◌}
use n6bagent.Goproxy.Http.{Result, ok, err}
use n6bagent.Goproxy.State.{
  ◌>>=◌, ◌>>◌, M, return, panic, emit, load_req, new_ctx, writes, ConnectAction,
  ConnectActionLiteral, connect_accept, connect_reject, connect_mitm, connect_hijack,
  connect_http_mitm, Dial, Proxy, Transport,
}
use n6bagent.Goproxy.Proxy.{serve_plain}
use n6bagent.Goproxy.Connect.{
  decide, ok_connect, accept_connect, call_hijack, reject_connect, established,
}
use n6bagent.Goproxy.Connect.Mitm.{Exchange, mitm_http}
use n6bagent.Goproxy.Connect.Tls.{TlsExchange, Tls, mitm_tls}

-- What a request meets: the Hijack of its ResponseWriter, if it has one, net.Dial, the transport,
-- what inner connections give, and strconv.Itoa.
pub record Env : Type 0 where
  pub hijacker : Option (M (Result ℕ))
  pub net_dial : Dial
  pub transport : Transport
  pub exchanges : List Exchange
  pub tls : Tls
  pub tls_exchanges : List TlsExchange
  pub itoa : ℕ → String

-- The connection of the client; handleHttps panics without one.
abbrev pub taken_over : Result ℕ → M ℕ
taken_over (err e) = panic
taken_over (ok c) = return c

abbrev pub hijack : Option (M (Result ℕ)) → M ℕ
hijack none = panic
hijack (some h) = do c ← h; taken_over c

-- The `switch` of handleHttps.
unfoldable pub connect :
    Env → Proxy → ℕ → ℕ → ConnectAction → String → ConnectActionLiteral → M (Unit {0})
connect env p r client todo host connect_accept = accept_connect env.net_dial p client host
connect env p r client todo host connect_hijack =
    emit (writes client established) >> call_hijack todo.hijack r client
connect env p r client todo host connect_http_mitm =
    mitm_http env.net_dial p client host env.exchanges
connect env p r client todo host connect_mitm =
    mitm_tls env.itoa env.transport p env.tls todo client host env.tls_exchanges
connect env p r client todo host connect_reject = reject_connect client

unfoldable pub handle_https : Env → Proxy → ℕ → M (Unit {0})
unfolding decide connect
handle_https env p r = do
  new_ctx r
  client ← hijack env.hijacker
  q ← load_req r
  x ← decide p.https_handlers ok_connect q.url.host
  connect env p r client x.0 x.1 (x.0).action

unfoldable pub serve_http : Env → Proxy → ℕ → M (Unit {0})
serve_http env p r = do
  q ← load_req r
  if q.method == "CONNECT" then handle_https env p r else serve_plain env.transport p r
