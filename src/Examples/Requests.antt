-- ===== src/Examples/Requests.antt =====
-- A request that the program takes for an upgrade, and one that it refuses.
use Prim.Native.String.{String}
use text.Mathlib.Text.{◌==◌}
use n6bagent.Prelude.{◌+◌, ℕ, ◌≡◌, true, false, none, some, [], ◌∷◌, if◌then◌else◌}
use n6bagent.Websocket.Base
use n6bagent.Websocket.Handshake.{Library, Request, serve}
use n6bagent.Websocket.Handshake.Outcomes.{is_conn, is_welcome, serve-is_welcome}
use n6bagent.Goproxy.Http.{ok}
use n6bagent.Goproxy.State.{return, Dial}
use n6bagent.Goproxy.Dialer.{Outside}
use n6bagent.Yamux.Const
use n6bagent.Agent.{Serving, websocket_route}
use n6bagent.Agent.Routes.{session_on, sessions, ends_closed, websocket_route_lem}

-- Every text but the empty one is an address, and a list of protocols has one.
abbrev lib : Library
lib = record {
  Url = String;
  to_lower = λ s. s;
  contains = λ s t. s == t;
  trim_space = λ s. s;
  split = λ s t. s ∷ [];
  parse = λ s. if s == "" then none else some s;
  nonce_accept = λ s. s;
  concat = λ s t. if s == "" then t else s;
  message = λ e. "";
}

abbrev headers : String → String
headers h =
    if h == "Upgrade"
    then "websocket"
    else if h == "Connection"
    then "upgrade"
    else if h == "Sec-Websocket-Key"
    then "key"
    else if h == "Sec-Websocket-Version"
    then "13"
    else if h == "Origin"
    then "here"
    else ""

abbrev upgrade : Request
upgrade = record {
  method = "GET";
  header = headers;
  tls = false;
  host = "host";
  request_uri = "/websocket";
}

serve-is_welcome_example : is_conn lib (serve lib upgrade Base.eof none) ≡ is_welcome lib upgrade
serve-is_welcome_example = serve-is_welcome lib upgrade Base.eof

-- Serving that always ends with an error.
abbrev pub outside : Outside
outside = record {
  parse = λ s. ok (record { scheme = "http"; host = s; path = "" });
  tls_client = λ c. c + 1;
  connect_request = λ a. a;
  read_response = λ c. ok (200, "");
  limited = λ b. b;
  getenv = λ v. "";
}

-- The network gives the connection 5.
abbrev pub net_dial : Dial
net_dial network addr = return (ok 5)

abbrev pub srv : Serving
srv = record { Failure = ℕ; outside = outside; net_dial = net_dial; http_serve = λ s p. some 1 }

websocket_route_lem_example :
    let es = websocket_route srv lib upgrade Base.eof none (0 ∷ []) Const.eof in
    (sessions srv es ≡ session_on srv (0 ∷ []) Const.eof ∷ []) × (ends_closed srv es ≡ true)
websocket_route_lem_example = websocket_route_lem srv lib upgrade Base.eof (0 ∷ []) Const.eof
