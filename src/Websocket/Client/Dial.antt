-- ===== src/Websocket/Client/Dial.antt =====
-- client.go: NewClient, DialConfig and Dial as a whole, and a Dial to the program's server.
use Prim.Native.String.{String}
use text.Mathlib.Text.{◌==◌}
use text.Mathlib.TextEquality.{eq_iff}
use n6bagent.Prelude.{
  ◌≡◌, ◌≢◌, refl, ap, ap₂, ◌∙◌, Bool, true, false, Option, none, some, List, [], ◌∷◌, arith,
  if◌then◌else◌,
}
use n6bagent.Websocket.Base.{Error}
use n6bagent.Websocket.Frame.{Bytes}
use n6bagent.Websocket.Conn.{Conn, new_hybi_conn}
use n6bagent.Websocket.Handshake.{
  Library, Line, Config, Request, Served, conn, no_conn, serve, extra_lines, address,
}
use n6bagent.Websocket.Client.{
  Addresses, Answer, Dialled, tcp, tls, refuses, request_lines, client_handshake, dial_config,
  by_scheme, with_location, new_config,
}
use n6bagent.Websocket.Client.Agreement.{
  Lawful, IsOffer, answer_of, request_of, client_handshake-serve,
}

-- What a new connection does: whether the flush of the handshake works, what http.ReadResponse
-- gives for the lines that were put out, and the bytes behind the response with their end.
pub record Peer : Type 0 where
  pub flush : Option Error
  pub answers_to : List Line → Answer
  pub input : Bytes
  pub input_end : Error

-- What net.Dial and tls.Dial give.
pub data Reached : Type 0 where
  reached : Peer → Reached
  unreached : Error → Reached

-- net.Dial and tls.Dial by the host; the flag is for the latter.
abbrev pub Net : Type 0
Net = Bool → String → Reached

module _ (lib : Library) (addr : Addresses lib) where
  -- A new connection with what was put out on it, or a handshake that failed.
  pub data NewClient : Type 0 where
    client : List Line → Config lib → Conn → NewClient
    failed : List Line → Config lib → Error → NewClient
    panics : NewClient

  abbrev after_handshake : Peer → List Line × (Config lib × Option Error) → NewClient
  after_handshake peer (ls, (c, none)) = client ls c (new_hybi_conn false peer.input peer.input_end)
  after_handshake peer (ls, (c, some e)) = failed ls c e

  abbrev pub handshake_with :
      Config lib → String → Peer → Option lib.Url → Option lib.Url → NewClient
  handshake_with c nonce peer none o = panics
  handshake_with c nonce peer (some u) none = panics
  handshake_with c nonce peer (some u) (some o) = after_handshake peer (
      client_handshake lib addr c u o nonce peer.flush
        (peer.answers_to (request_lines lib addr c u o nonce)))

  -- NewClient; the handshake takes both addresses through their pointers.
  unfoldable pub new_client : Config lib → String → Peer → NewClient
  new_client c nonce peer = handshake_with c nonce peer c.location c.origin

  -- Dial and DialConfig give a connection, or a DialError with the configuration and its error.
  -- `left_open` is a connection that was opened then: the code does not close it.
  pub data DialOutcome : Type 0 where
    connected : List Line → Config lib → Conn → DialOutcome
    dial_error : Option String → Config lib → Error → DialOutcome
    crashed : DialOutcome
    no_config : DialOutcome

  abbrev on_client : String → NewClient → DialOutcome
  on_client host (client ls c ws) = connected ls c ws
  on_client host (failed ls c e) = dial_error (some host) c e
  on_client host panics = crashed

  abbrev on_reached : Config lib → String → String → Reached → DialOutcome
  on_reached c nonce host (reached peer) = on_client host (new_client c nonce peer)
  on_reached c nonce host (unreached e) = dial_error none c e

  abbrev on_dialled : Net → Config lib → String → Dialled lib addr → DialOutcome
  on_dialled net c nonce (tcp host) = on_reached c nonce host (net false host)
  on_dialled net c nonce (tls host) = on_reached c nonce host (net true host)
  on_dialled net c nonce (refuses e) = dial_error none c e

  -- DialConfig.
  unfoldable pub dial_to : Net → Config lib → String → DialOutcome
  dial_to net c nonce = on_dialled net c nonce (dial_config lib addr c)

  abbrev with_protocol : String → Config lib → Config lib
  with_protocol p c = if p == "" then c else record c { protocol = p ∷ [] }

  -- Dial.
  unfoldable pub dial_url : Net → String → String → String → String → DialOutcome
  dial_url net url protocol origin nonce =
      let (c, parsed) = new_config lib url origin in
      if parsed then dial_to net (with_protocol protocol c) nonce else no_config

after_ok :
    (lib : Library) (addr : Addresses lib) (peer : Peer)
    (x : List Line × (Config lib × Option Error))
    → x.1.1 ≡ none
    → after_handshake lib addr peer x
      ≡ client x.0 x.1.0 (new_hybi_conn false peer.input peer.input_end)
after_ok lib addr peer (ls, (c, none)) ok = refl
after_ok lib addr peer (ls, (c, some e)) ok = cc

-- The lines of a handshake with the right version are those of the request.
handshake_lines :
    (lib : Library) (addr : Addresses lib) (c : Config lib) (u o : lib.Url) (nonce : String)
    (flush : Option Error) (a : Answer)
    → c.version ≡ 13
    → (client_handshake lib addr c u o nonce flush a).0 ≡ request_lines lib addr c u o nonce
unfolding client_handshake
handshake_lines lib addr c u o nonce flush a version = ground (arith, version)

-- What the program's server puts on a connection for a request, when its flush works.
abbrev pub served_lines : {lib : Library} → Served lib → List Line
served_lines (conn ls d) = ls
served_lines (no_conn ls e) = ls

module _ (lib : Library) (addr : Addresses lib) (law : Lawful lib) (c : Config lib)
    (u o v w : lib.Url) (nonce : String) (e : Error) (version : c.version ≡ 13)
    (bare : extra_lines lib c.extra ≡ []) (has_nonce : nonce ≢ "")
    (origin : lib.to_lower (addr.text_of o) ≢ "null")
    (parses : lib.parse (lib.to_lower (addr.text_of o)) ≡ some w) where
  abbrev lines : List Line
  lines = request_lines lib addr c u o nonce

  abbrev asked : Request
  asked = request_of (addr.request_uri u) false lines

  -- DialConfig with the scheme "ws" to the program's server, on a connection that works and carries
  -- the lines of both, by a client that offers no subprotocol or one and whose host and origin are
  -- addresses that the server can read: it gives a client's connection that is as new and reads what
  -- follows the response, the server accepts it, and both agree on the subprotocols.
  pub dial_to-serve :
      (net : Net) (peer : Peer) (ps : List String)
      → c.location ≡ some u
      → c.origin ≡ some o
      → addr.scheme u ≡ "ws"
      → net false (addr.host u) ≡ reached peer
      → peer.flush ≡ none
      → peer.answers_to lines ≡ answer_of (served_lines (serve lib asked e none))
      → IsOffer lib addr ps
      → c.protocol ≡ ps
      → lib.parse (address lib asked) ≡ some v
      → (ls : List Line) × (d r : Config lib) × (serve lib asked e none ≡ conn ls d)
        × (dial_to lib addr net c nonce
            ≡ connected lines r (new_hybi_conn false peer.input peer.input_end))
        × (d.protocol ≡ ps)
        × (r.protocol ≡ ps)
  unfolding dial_to new_client dial_config
  dial_to-serve net peer ps at from scheme there flush answers one offer here =
      let (ls, d, served, no_error, same, agreed) =
        client_handshake-serve lib addr law c u o v w nonce false e version bare has_nonce origin
          parses ps one offer here in
      let a : Answer = answer_of ls in
      let x : List Line × (Config lib × Option Error) =
        client_handshake lib addr c u o nonce none a in
      let given : peer.answers_to lines ≡ a =
        answers ∙ ap (λ (r : Served lib). answer_of (served_lines r)) served in
      let made : new_client lib addr c nonce peer
          ≡ client lines x.1.0 (new_hybi_conn false peer.input peer.input_end) =
        ap₂ (handshake_with lib addr c nonce peer) at from
        ∙ ap₂
            (λ (k : Option Error) (z : Answer).
              after_handshake lib addr peer (client_handshake lib addr c u o nonce k z))
            flush given
        ∙ after_ok lib addr peer x no_error
        ∙ ap (λ (z : List Line). client z x.1.0 (new_hybi_conn false peer.input peer.input_end))
            (handshake_lines lib addr c u o nonce none a version) in
      let by : by_scheme lib addr u ≡ tcp (addr.host u) =
        ground (arith, scheme, eq_iff (addr.scheme u) "ws") in
      let ended : on_dialled lib addr net c nonce (dial_config lib addr c)
          ≡ on_client lib addr (addr.host u) (new_client lib addr c nonce peer) =
        ap (on_dialled lib addr net c nonce) (ap₂ (with_location lib addr) at from ∙ by)
        ∙ ap (on_reached lib addr c nonce (addr.host u)) there in
      (ls, d, x.1.0, served, ended ∙ ap (on_client lib addr (addr.host u)) made, same, agreed)
