-- ===== src/Websocket/Handshake/Outcomes.antt =====
-- Which requests become connections, and what the others are told.
use Prim.Native.String.{String}
use text.Mathlib.Text.{◌==◌}
use text.Mathlib.TextEquality.{eq_iff}
use n6bagent.Prelude.{
  ◌≡◌, ◌≢◌, ◌⊎◌, Bool, true, false, not, ◌&&◌, Option, none, some, List, [], ◌∷◌, ◌++◌, arith,
  if◌then◌else◌,
}
use n6bagent.Websocket.Base.{Error}
use n6bagent.Websocket.Handshake.{
  Library, Line, status, field, blank, protocol_line, Request, Config, read_handshake, no_upgrade,
  address, protocols, one_at_most, Served, conn, no_conn, accept_handshake, origin_of, serve,
  accepted, handshaken, after_read,
}

module _ (lib : Library) where
  -- A request that asks for an upgrade as the protocol wants it.
  abbrev pub is_upgrade : Request → Bool
  is_upgrade req =
      req.method == "GET"
      && not (no_upgrade lib req)
      && not (req.header "Sec-Websocket-Key" == "")
      && req.header "Sec-Websocket-Version" == "13"

  -- ReadHandshake passes an upgrade whose address parses with 101, and has then the address, the
  -- accept key of the request's key, and the protocols that were offered.
  pub read_handshake_ok :
      (c : Config lib) (req : Request) (e : Error) (u : lib.Url)
      → is_upgrade req ≡ true
      → lib.parse (address lib req) ≡ some u
      → let v = read_handshake lib c req e in
        (v.code ≡ 101)
        × (v.failure ≡ none)
        × (v.config.accept ≡ lib.nonce_accept (req.header "Sec-Websocket-Key"))
        × (v.config.location ≡ some u)
        × (v.config.protocol
            ≡ c.protocol ++ protocols lib (lib.trim_space (req.header "Sec-Websocket-Protocol")))
  unfolding read_handshake
  read_handshake_ok c req e u up parsed = ground (arith, parsed)

  -- Any other request is refused, with 405 if its method is not GET and with 400 otherwise.
  pub read_handshake_refused :
      (c : Config lib) (req : Request) (e : Error)
      → (is_upgrade req ≡ false) ⊎ (lib.parse (address lib req) ≡ none)
      → let v = read_handshake lib c req e in
        (v.failure ≢ none) × (v.code ≡ (if req.method == "GET" then 400 else 405))
  unfolding read_handshake
  read_handshake_refused c req e h = ground arith

  abbrev is_some : Option lib.Url → Bool
  is_some none = false
  is_some (some u) = true

  abbrev pub is_conn : Served lib → Bool
  is_conn (conn ls c) = true
  is_conn (no_conn ls e) = false

  -- What the handler that the program installs wants of a request: an upgrade, an address, an
  -- origin that is an address too, and one subprotocol at most.
  abbrev pub is_welcome : Request → Bool
  is_welcome req =
      is_upgrade req
      && is_some (lib.parse (address lib req))
      && not (req.header "Origin" == "null")
      && is_some (lib.parse (req.header "Origin"))
      && one_at_most lib (protocols lib (lib.trim_space (req.header "Sec-Websocket-Protocol")))

  -- When the answer can be flushed, the handler gets a connection for exactly the requests that it
  -- wants; a request with two subprotocols is among those that it refuses.
  pub serve-is_welcome :
      (req : Request) (e : Error) → is_conn (serve lib req e none) ≡ is_welcome req
  unfolding serve read_handshake after_read handshaken accept_handshake accepted origin_of
  serve-is_welcome req e = ground arith

  -- The lines that accept a request, and the configuration of the connection.
  abbrev pub welcome_lines : List String → String → List Line
  welcome_lines ps accept =
      status 101
      ∷ field "Upgrade" "websocket"
      ∷ field "Connection" "Upgrade"
      ∷ field "Sec-Websocket-Accept" accept
      ∷ (protocol_line lib ps ++ blank ∷ [])

  abbrev pub welcome_config : lib.Url → lib.Url → List String → String → Config lib
  welcome_config u o ps accept = record {
    location = some u;
    origin = some o;
    protocol = ps;
    version = 13;
    extra = none;
    accept = accept;
  }

  -- What a welcome request is answered, and the configuration that the handler gets.
  pub serve-conn :
      (req : Request) (e : Error) (u o : lib.Url) (ps : List String)
      → is_upgrade req ≡ true
      → lib.parse (address lib req) ≡ some u
      → req.header "Origin" ≢ "null"
      → lib.parse (req.header "Origin") ≡ some o
      → protocols lib (lib.trim_space (req.header "Sec-Websocket-Protocol")) ≡ ps
      → one_at_most lib ps ≡ true
      → let accept = lib.nonce_accept (req.header "Sec-Websocket-Key") in
        serve lib req e none ≡ conn (welcome_lines ps accept) (welcome_config u o ps accept)
  unfolding serve read_handshake after_read handshaken accept_handshake accepted origin_of
  serve-conn req e u o ps up here not_null known offer few =
      ground (arith, up, here, known, offer, few, eq_iff (req.header "Origin") "null")
