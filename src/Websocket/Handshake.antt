-- ===== src/Websocket/Handshake.antt =====
-- hybi.go and server.go: the handshake of a server, up to the call of the program's handler.
pub mod Outcomes
use Prim.Native.String.{String}
use text.Mathlib.Text.{◌==◌}
use n6bagent.Prelude.{
  ℕ, Bool, true, false, not, ◌&&◌, ◌||◌, Option, none, some, List, [], ◌∷◌, ◌++◌, map,
  if◌then◌else◌,
}
use n6bagent.Websocket.Base.{
  Error, bad_request_method, not_web_socket, challenge_response, bad_web_socket_version,
  bad_web_socket_protocol, null_origin,
}

-- What the handshake uses of net/http, net/url, strings, and of the hash and the encoding of
-- getNonceAccept; `parse` is url.ParseRequestURI.
pub record Library : Type 1 where
  pub Url : Type 0
  pub to_lower : String → String
  pub contains : String → String → Bool
  pub trim_space : String → String
  pub split : String → String → List String
  pub parse : String → Option Url
  pub nonce_accept : String → String
  pub concat : String → String → String
  pub message : Error → String

-- What a handshake writes: a status line, a field by its canonical name, the end of the header, or
-- the text behind it.
pub data Line : Type 0 where
  status : ℕ → Line
  field : String → String → Line
  blank : Line
  plain_text : String → Line

-- `Header.Get` on the lines of a header: the value of the first field of a name, or none.
abbrev pub value_of : List Line → String → String
value_of [] name = ""
value_of (field n v ∷ ls) name = if n == name then v else value_of ls name
value_of (l ∷ ls) name = value_of ls name

-- The parts of a request that the handshake reads; `header` is `req.Header.Get`.
pub record Request : Type 0 where
  pub method : String
  pub header : String → String
  pub tls : Bool
  pub host : String
  pub request_uri : String

module _ (lib : Library) where
  -- Config, and `accept` of hybiServerHandshaker. `extra` is what the further headers of the
  -- configuration write, if it has any.
  pub record Config : Type 0 where
    pub location : Option lib.Url
    pub origin : Option lib.Url
    pub protocol : List String
    pub version : ℕ
    pub extra : Option (List Line)
    pub accept : String

  -- A status code and Go's error.
  pub record Verdict : Type 0 where
    pub config : Config
    pub code : ℕ
    pub failure : Option Error

  abbrev pub refused : Config → ℕ → Error → Verdict
  refused c code e = record { config = c; code = code; failure = some e }

  abbrev pub protocols : String → List String
  protocols p = if p == "" then [] else map lib.trim_space (lib.split p ",")

  abbrev pub located : Config → Request → Option lib.Url → Error → Verdict
  located c req none e = refused (record c { location = none }) 400 e
  located c req (some u) e = record {
    config = record c {
      location = some u;
      protocol = c.protocol ++ protocols (lib.trim_space (req.header "Sec-Websocket-Protocol"));
      accept = lib.nonce_accept (req.header "Sec-Websocket-Key");
    };
    code = 101;
    failure = none;
  }

  abbrev pub scheme : Request → String
  scheme req = if req.tls then "wss" else "ws"

  abbrev pub address : Request → String
  address req = lib.concat (lib.concat (scheme req) "://") (lib.concat req.host req.request_uri)

  -- `strings.ToLower(h) != "websocket" || !strings.Contains(strings.ToLower(g), "upgrade")`
  abbrev pub no_upgrade : Request → Bool
  no_upgrade req =
      not (lib.to_lower (req.header "Upgrade") == "websocket")
      || not (lib.contains (lib.to_lower (req.header "Connection")) "upgrade")

  -- ReadHandshake; `e` is the error of an address that does not parse.
  unfoldable pub read_handshake : Config → Request → Error → Verdict
  read_handshake c0 req e =
      let c = record c0 { version = 13 } in
      if not (req.method == "GET")
      then refused c 405 bad_request_method
      else if no_upgrade req
      then refused c 400 not_web_socket
      else if req.header "Sec-Websocket-Key" == ""
      then refused c 400 challenge_response
      else if not (req.header "Sec-Websocket-Version" == "13")
      then refused c 400 bad_web_socket_version
      else located c req (lib.parse (address req)) e

  -- What is written to the client, and Go's error.
  abbrev pub Written : Type 0
  Written = List Line × Option Error

  abbrev pub protocol_line : List String → List Line
  protocol_line [] = []
  protocol_line (p ∷ ps) = field "Sec-Websocket-Protocol" p ∷ []

  abbrev pub extra_lines : Option (List Line) → List Line
  extra_lines none = []
  extra_lines (some ls) = ls

  abbrev pub one_at_most : List String → Bool
  one_at_most [] = true
  one_at_most (p ∷ []) = true
  one_at_most (p ∷ q ∷ ps) = false

  -- AcceptHandshake, for the error of the flush.
  unfoldable pub accept_handshake : Config → Option Error → Written
  accept_handshake c flush =
      if one_at_most c.protocol
      then (
        status 101
            ∷ field "Upgrade" "websocket"
            ∷ field "Connection" "Upgrade"
            ∷ field "Sec-Websocket-Accept" c.accept
            ∷ (protocol_line c.protocol ++ (extra_lines c.extra ++ blank ∷ [])),
        flush,
      )
      else ([], some bad_web_socket_protocol)

  -- The result of newServerConn: the lines, and the configuration of the connection or the error.
  pub data Served : Type 0 where
    conn : List Line → Config → Served
    no_conn : List Line → Error → Served

  accepted : Config → Written → Served
  accepted c (ls, none) = conn ls c
  accepted c (ls, some e) = no_conn (ls ++ status 400 ∷ blank ∷ []) e

  handshaken : Config × Option Error → Option Error → Served
  unfolding accepted accept_handshake
  handshaken (c, some e) flush = no_conn (status 403 ∷ blank ∷ []) e
  handshaken (c, none) flush = accepted c (accept_handshake c flush)

  abbrev pub is_version : Error → Bool
  is_version bad_web_socket_version = true
  is_version e = false

  after_read : Verdict → Option Error → (Config → Config × Option Error) → Option Error → Served
  unfolding handshaken
  after_read v (some e) handshake flush =
      if is_version e
      then no_conn
          (status v.code
            ∷ field "Sec-Websocket-Version" "13"
            ∷ blank
            ∷ plain_text (lib.message e)
            ∷ [])
          e
      else no_conn (status v.code ∷ blank ∷ plain_text (lib.message e) ∷ []) e
  after_read v none handshake flush = handshaken (handshake v.config) flush

  -- newServerConn with a handshake function.
  unfoldable pub new_server_conn :
      Config → Request → Error → (Config → Config × Option Error) → Option Error → Served
  unfolding after_read read_handshake
  new_server_conn c req e handshake flush =
      let v = read_handshake c req e in after_read v v.failure handshake flush

  -- Origin, in the version that ReadHandshake sets: no origin, with or without an error.
  unfoldable pub origin_of : Request → Error → Option lib.Url × Option Error
  origin_of req e =
      let o = req.header "Origin" in
      if o == "null"
      then (none, none)
      else elim (lib.parse o) [ none ↦ (none, some e) | some u ↦ (some u, none) ]

  abbrev pub no_null : Option lib.Url × Option Error → Option Error
  no_null (none, none) = some null_origin
  no_null (some u, none) = none
  no_null (o, some e) = some e

  unfoldable pub check_origin : Request → Error → Config → Config × Option Error
  unfolding origin_of
  check_origin req e c = let r = origin_of req e in (record c { origin = r.0 }, no_null r)

  -- Handler.ServeHTTP on a connection that was taken over: whether the handler runs, with which
  -- configuration, and what was written. The connection is closed at the end in every case.
  unfoldable pub serve : Request → Error → Option Error → Served
  unfolding new_server_conn check_origin
  serve req e flush =
      new_server_conn
        (record {
          location = none;
          origin = none;
          protocol = [];
          version = 0;
          extra = none;
          accept = "";
        })
        req e (check_origin req e) flush
