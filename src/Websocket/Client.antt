-- ===== src/Websocket/Client.antt =====
-- hybi.go and client.go: the handshake of a client.
pub mod Agreement
pub mod Dial
use Prim.Native.String.{String}
use text.Mathlib.Text.{◌==◌}
use n6bagent.Prelude
use n6bagent.Prelude.{
  ℕ, Bool, true, false, not, ◌||◌, Option, none, some, List, [], ◌∷◌, ◌++◌, if◌then◌else◌,
}
use n6bagent.Websocket.Base.{
  Error, bad_protocol_version, bad_scheme, bad_status, bad_upgrade, challenge_response,
  unsupported_extensions, bad_web_socket_protocol, bad_web_socket_origin, bad_web_socket_location,
}
use n6bagent.Websocket.Handshake.{Library, Line, field, blank, Config, extra_lines}

-- What the client uses of net/url and strings besides: the parts of an address, its text, and
-- `strings.Join(ps, ", ")`.
pub record Addresses (lib : Library) : Type 0 where
  pub host : lib.Url → String
  pub request_uri : lib.Url → String
  pub scheme : lib.Url → String
  pub text_of : lib.Url → String
  pub join : List String → String

-- The parts of a response that the handshake reads.
pub record Response : Type 0 where
  pub code : ℕ
  pub header : String → String

-- What http.ReadResponse gives.
pub data Answer : Type 0 where
  answer : Response → Answer
  no_answer : Error → Answer

module _ (lib : Library) (addr : Addresses lib) where
  abbrev pub protocol_field : List String → List Line
  protocol_field [] = []
  protocol_field (p ∷ ps) = field "Sec-Websocket-Protocol" (addr.join (p ∷ ps)) ∷ []

  -- The fields of the request to `u` from `o`.
  unfoldable pub request_lines : Config lib → lib.Url → lib.Url → String → List Line
  request_lines c u o nonce =
      field "Host" (addr.host u)
      ∷ field "Upgrade" "websocket"
      ∷ field "Connection" "Upgrade"
      ∷ field "Sec-Websocket-Key" nonce
      ∷ field "Origin" (lib.to_lower (addr.text_of o))
      ∷ field "Sec-Websocket-Version" "13"
      ∷ (protocol_field c.protocol ++ (extra_lines lib c.extra ++ blank ∷ []))

  abbrev pub offers : String → List String → Bool
  offers p [] = false
  offers p (q ∷ qs) = q == p || offers p qs

  -- The part behind the Flush that checks the response.
  unfoldable pub check_response : Config lib → String → Response → Config lib × Option Error
  check_response c nonce r =
      let offered = r.header "Sec-Websocket-Protocol" in
      if not (Prelude.◌==◌ r.code 101)
      then (c, some bad_status)
      else if not (lib.to_lower (r.header "Upgrade") == "websocket")
          || not (lib.to_lower (r.header "Connection") == "upgrade")
      then (c, some bad_upgrade)
      else if not (r.header "Sec-Websocket-Accept" == lib.nonce_accept nonce)
      then (c, some challenge_response)
      else if not (r.header "Sec-Websocket-Extensions" == "")
      then (c, some unsupported_extensions)
      else if offered == ""
      then (c, none)
      else if offers offered c.protocol
      then (record c { protocol = offered ∷ [] }, none)
      else (c, some bad_web_socket_protocol)

  abbrev pub on_answer : Config lib → String → Answer → Config lib × Option Error
  on_answer c nonce (no_answer e) = (c, some e)
  on_answer c nonce (answer r) = check_response c nonce r

  abbrev pub after_flush : Config lib → String → Option Error → Answer → Config lib × Option Error
  after_flush c nonce (some e) a = (c, some e)
  after_flush c nonce none a = on_answer c nonce a

  -- hybiClientHandshake: the lines that are put out, the configuration and Go's error. `nonce` is
  -- the random one or that of the configuration.
  unfoldable pub client_handshake :
      Config lib
      → lib.Url
      → lib.Url
      → String
      → Option Error
      → Answer
      → List Line × (Config lib × Option Error)
  unfolding request_lines check_response
  client_handshake c u o nonce flush a =
      if Prelude.◌==◌ c.version 13
      then (request_lines c u o nonce, after_flush c nonce flush a)
      else ([], (c, some bad_protocol_version))

  -- The connection that DialConfig opens, or why it opens none.
  pub data Dialled : Type 0 where
    tcp tls : String → Dialled
    refuses : Error → Dialled

  abbrev pub by_scheme : lib.Url → Dialled
  by_scheme u =
      if addr.scheme u == "ws"
      then tcp (addr.host u)
      else if addr.scheme u == "wss"
      then tls (addr.host u)
      else refuses bad_scheme

  abbrev pub with_origin : lib.Url → Option lib.Url → Dialled
  with_origin u none = refuses bad_web_socket_origin
  with_origin u (some o) = by_scheme u

  abbrev pub with_location : Option lib.Url → Option lib.Url → Dialled
  with_location none o = refuses bad_web_socket_location
  with_location (some u) o = with_origin u o

  -- DialConfig, up to the dial.
  unfoldable pub dial_config : Config lib → Dialled
  dial_config c = with_location c.location c.origin

-- NewConfig: Go's configuration and whether both addresses parse.
unfoldable pub new_config : (lib : Library) → String → String → Config lib × Bool
new_config lib server origin =
    let c : Config lib = record {
      location = lib.parse server;
      origin = none;
      protocol = [];
      version = 13;
      extra = none;
      accept = "";
    } in
    elim (lib.parse server) [
      | none ↦ (c, false)
      | some u ↦ elim (lib.parse origin) [
        | none ↦ (c, false)
        | some o ↦ (record c { origin = some o; extra = some [] }, true)
      ]
    ]
