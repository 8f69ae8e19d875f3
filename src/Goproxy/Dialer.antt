-- ===== src/Goproxy/Dialer.antt =====
-- https.go, proxy.go: the dialer that goes through another proxy, and a new proxy.
pub mod Through
use Prim.Native.Char.{code}
use Prim.Native.String
use Prim.Native.String.{String}
use text.Mathlib.Text.{◌==◌}
use n6bagent.Prelude
use n6bagent.Prelude.{ℕ, Bool, false, ◌||◌, Option, none, some, [], ◌∷◌, if◌then◌else◌}
use n6bagent.Goproxy.Http.{Url, Error, Result, ok, err}
use n6bagent.Goproxy.State.{◌>>=◌, ◌>>◌, M, return, emit, writes, closes, Dial, Proxy}
use n6bagent.Goproxy.Connect.{dial}

-- What the dialer uses: url.Parse, tls.Client, the text of a CONNECT request, the status code and
-- the body of the response that ReadResponse gives, the first 500 bytes of a text, and os.Getenv.
pub record Outside : Type 0 where
  pub parse : String → Result Url
  pub tls_client : ℕ → ℕ
  pub connect_request : String → String
  pub read_response : ℕ → Result (ℕ × String)
  pub limited : String → String
  pub getenv : String → String

-- `strings.IndexRune(s, ':') == -1`
abbrev pub has_colon : String → Bool
has_colon String.[] = false
has_colon (String.◌∷◌ c s) = Prelude.◌==◌ (code c) b':' || has_colon s

abbrev pub host_or : String → String → String
host_or host port = if has_colon host then host else String.◌++◌ host port

abbrev pub refusal : String → Error
refusal body = Error.failure (String.◌++◌ "proxy refused connection" body)

abbrev pub check_response : (String → String) → ℕ → Result (ℕ × String) → M (Result ℕ)
check_response cut c (err e) = emit (closes c) >> return (err e)
check_response cut c (ok (status, body)) =
    if Prelude.◌==◌ status 200
    then return (ok c)
    else (emit (closes c) >> return (err (refusal (cut body))))

-- What is done with the connection to the other proxy, where `wrap` and `cut` tell a TLS connection
-- from a plain one.
abbrev pub ask_proxy : Outside → (ℕ → ℕ) → (String → String) → String → Result ℕ → M (Result ℕ)
ask_proxy out wrap cut addr (err e) = return (err e)
ask_proxy out wrap cut addr (ok c) = do
  emit (writes (wrap c) (out.connect_request addr))
  check_response cut (wrap c) (out.read_response (wrap c))

unfoldable pub dial_through : Outside → Dial → Proxy → (ℕ → ℕ) → (String → String) → String → Dial
dial_through out net_dial p wrap cut host network addr = do
  c ← dial net_dial p network host
  ask_proxy out wrap cut addr c

abbrev pub dialer_to : Outside → Dial → Proxy → Result Url → Option Dial
dialer_to out net_dial p (err e) = none
dialer_to out net_dial p (ok u) =
    if u.scheme == "" || u.scheme == "http"
    then some (dial_through out net_dial p (λ c. c) (λ b. b) (host_or u.host ":80"))
    else if u.scheme == "https"
    then some (dial_through out net_dial p out.tls_client out.limited (host_or u.host ":443"))
    else none

-- NewConnectDialToProxy.
unfoldable pub new_connect_dial_to_proxy : Outside → Dial → Proxy → String → Option Dial
unfolding dial_through
new_connect_dial_to_proxy out net_dial p https_proxy =
    dialer_to out net_dial p (out.parse https_proxy)

unfoldable pub dialer_from_env : Outside → Dial → Proxy → Option Dial
unfolding new_connect_dial_to_proxy
dialer_from_env out net_dial p =
    let upper = out.getenv "HTTPS_PROXY" in
    let https_proxy = if upper == "" then out.getenv "https_proxy" else upper in
    if https_proxy == "" then none else new_connect_dial_to_proxy out net_dial p https_proxy

-- The proxy before its dialer is set; its transport has no `Dial`.
abbrev pub plain_proxy : Proxy
plain_proxy = record {
  verbose = false;
  req_handlers = [];
  resp_handlers = [];
  https_handlers = [];
  tr_dial = none;
  connect_dial = none;
}

unfoldable pub new_proxy_http_server : Outside → Dial → Proxy
unfolding dialer_from_env
new_proxy_http_server out net_dial = record plain_proxy {
  connect_dial = dialer_from_env out net_dial plain_proxy;
}
