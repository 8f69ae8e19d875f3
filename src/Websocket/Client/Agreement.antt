-- ===== src/Websocket/Client/Agreement.antt =====
-- A client and a server agree on a connection.
use Prim.Native.String.{String}
use text.Mathlib.TextEquality.{eq_iff}
use text.Mathlib.TextPositions.{eq_refl}
use n6bagent.Prelude.{
  ℕ, ◌≡◌, ◌≢◌, refl, ap, sym, subst, ◌∙◌, Bool, true, Option, none, some, List, [], ◌∷◌, ◌++◌,
  arith,
}
use n6bagent.Websocket.Base.{Error}
use n6bagent.Websocket.Handshake.{
  Library, Line, status, blank, value_of, Config, Request, extra_lines, address, conn, serve,
  one_at_most, protocols,
}
use n6bagent.Websocket.Handshake.Outcomes.{is_upgrade, welcome_lines, welcome_config, serve-conn}
use n6bagent.Websocket.Client.{
  Addresses, protocol_field, Response, Answer, answer, request_lines, offers, check_response,
  client_handshake,
}

-- The status of a response, and the response and the request that are read from the lines put out.
abbrev pub code_of : List Line → ℕ
code_of (status n ∷ ls) = n
code_of ls = 0

abbrev pub answer_of : List Line → Answer
answer_of ls = answer (record { code = code_of ls; header = value_of ls })

abbrev pub request_of : String → Bool → List Line → Request
request_of uri tls ls = record {
  method = "GET";
  header = value_of ls;
  tls = tls;
  host = value_of ls "Host";
  request_uri = uri;
}

-- What the handshakes rely on of strings.
pub record Lawful (lib : Library) : Type 0 where
  pub lower_websocket : lib.to_lower "websocket" ≡ "websocket"
  pub lower_upgrade : lib.to_lower "Upgrade" ≡ "upgrade"
  pub contains_upgrade : lib.contains "upgrade" "upgrade" ≡ true
  pub trim_empty : lib.trim_space "" ≡ ""

-- No subprotocol, or one that is no list and has no space around it.
abbrev pub IsOffer : (lib : Library) → Addresses lib → List String → Type 0
IsOffer lib addr [] = Unit {0}
IsOffer lib addr (p ∷ []) =
    (p ≢ "") × (addr.join (p ∷ []) ≡ p) × (lib.trim_space p ≡ p) × (lib.split p "," ≡ p ∷ [])
IsOffer lib addr (p ∷ q ∷ ps) = ⊥

is_upgrade_by_fields :
    (lib : Library) (q : Request)
    → q.method ≡ "GET"
    → lib.to_lower (q.header "Upgrade") ≡ "websocket"
    → lib.contains (lib.to_lower (q.header "Connection")) "upgrade" ≡ true
    → q.header "Sec-Websocket-Key" ≢ ""
    → q.header "Sec-Websocket-Version" ≡ "13"
    → is_upgrade lib q ≡ true
is_upgrade_by_fields lib q get upgrade connection key version = ground (
  arith,
  get,
  upgrade,
  connection,
  version,
  eq_iff q.method "GET",
  eq_iff (lib.to_lower (q.header "Upgrade")) "websocket",
  eq_iff (q.header "Sec-Websocket-Key") "",
  eq_iff (q.header "Sec-Websocket-Version") "13",
)

check_response-none :
    (lib : Library) (addr : Addresses lib) (c : Config lib) (nonce : String) (r : Response)
    → r.code ≡ 101
    → lib.to_lower (r.header "Upgrade") ≡ "websocket"
    → lib.to_lower (r.header "Connection") ≡ "upgrade"
    → r.header "Sec-Websocket-Accept" ≡ lib.nonce_accept nonce
    → r.header "Sec-Websocket-Extensions" ≡ ""
    → r.header "Sec-Websocket-Protocol" ≡ ""
    → check_response lib addr c nonce r ≡ (c, none)
unfolding check_response
check_response-none lib addr c nonce r code upgrade connection accept extensions protocol = ground (
  arith,
  code,
  eq_iff (lib.to_lower (r.header "Upgrade")) "websocket",
  eq_iff (lib.to_lower (r.header "Connection")) "upgrade",
  eq_iff (r.header "Sec-Websocket-Accept") (lib.nonce_accept nonce),
  eq_iff (r.header "Sec-Websocket-Extensions") "",
  eq_iff (r.header "Sec-Websocket-Protocol") "",
)

check_response-some :
    (lib : Library) (addr : Addresses lib) (c : Config lib) (nonce p : String) (r : Response)
    → r.code ≡ 101
    → lib.to_lower (r.header "Upgrade") ≡ "websocket"
    → lib.to_lower (r.header "Connection") ≡ "upgrade"
    → r.header "Sec-Websocket-Accept" ≡ lib.nonce_accept nonce
    → r.header "Sec-Websocket-Extensions" ≡ ""
    → r.header "Sec-Websocket-Protocol" ≡ p
    → p ≢ ""
    → offers lib addr p c.protocol ≡ true
    → check_response lib addr c nonce r ≡ (record c { protocol = p ∷ [] }, none)
unfolding check_response
check_response-some lib addr c nonce p r code upgrade connection accept extensions protocol
      some_text offered =
    ground (
      arith,
      code,
      protocol,
      offered,
      eq_iff (lib.to_lower (r.header "Upgrade")) "websocket",
      eq_iff (lib.to_lower (r.header "Connection")) "upgrade",
      eq_iff (r.header "Sec-Websocket-Accept") (lib.nonce_accept nonce),
      eq_iff (r.header "Sec-Websocket-Extensions") "",
      eq_iff (r.header "Sec-Websocket-Protocol") "",
    )

module _ (lib : Library) (addr : Addresses lib) (law : Lawful lib) (c : Config lib)
    (u o v w : lib.Url) (nonce : String) (tls : Bool) (e : Error) (version : c.version ≡ 13)
    (bare : extra_lines lib c.extra ≡ []) (has_nonce : nonce ≢ "")
    (origin : lib.to_lower (addr.text_of o) ≢ "null")
    (parses : lib.parse (lib.to_lower (addr.text_of o)) ≡ some w) where
  -- The request of the client, as the server reads it.
  abbrev pub asked : Request
  asked = request_of (addr.request_uri u) tls (request_lines lib addr c u o nonce)

  -- The header of an offer.
  abbrev offered : List String → String
  offered [] = ""
  offered (p ∷ ps) = addr.join (p ∷ ps)

  asked-protocol :
      (ps : List String) → c.protocol ≡ ps → asked.header "Sec-Websocket-Protocol" ≡ offered ps
  unfolding request_lines
  asked-protocol ps offer = rw offer (go ps)
    where
      go :
          (qs : List String)
          → value_of
              (protocol_field lib addr qs ++ (extra_lines lib c.extra ++ blank ∷ []))
              "Sec-Websocket-Protocol"
            ≡ offered qs
      go [] = rw bare refl
      go (q ∷ qs) = refl

  asked-is_upgrade : is_upgrade lib asked ≡ true
  unfolding request_lines
  asked-is_upgrade =
      is_upgrade_by_fields lib asked refl law.lower_websocket
        (ap (λ t. lib.contains t "upgrade") law.lower_upgrade ∙ law.contains_upgrade) has_nonce refl

  offer-protocols :
      (ps : List String)
      → IsOffer lib addr ps
      → (protocols lib (lib.trim_space (offered ps)) ≡ ps) × (one_at_most lib ps ≡ true)
  offer-protocols [] one = (ap (protocols lib) law.trim_empty, refl)
  offer-protocols (p ∷ []) (some_text, join, trim, split) = (
    ap (λ t. protocols lib (lib.trim_space t)) join
        ∙ ap (protocols lib) trim
        ∙ ground (arith, split, trim, eq_iff p ""),
    refl,
  )
  offer-protocols (p ∷ q ∷ ps) one = elim one [ ]

  Accepted : List String → Config lib × Option Error → Type 0
  Accepted ps x = (x.1 ≡ none) × (x.0.protocol ≡ ps)

  welcomed : List String → Response
  welcomed ps = record {
    code = 101;
    header = value_of (welcome_lines lib ps (lib.nonce_accept nonce));
  }

  accepts :
      (ps : List String)
      → IsOffer lib addr ps
      → c.protocol ≡ ps
      → Accepted ps (check_response lib addr c nonce (welcomed ps))
  unfolding check_response Accepted welcomed
  accepts [] one offer =
      subst (Accepted [])
        (sym (
          check_response-none lib addr c nonce (welcomed []) refl law.lower_websocket
            law.lower_upgrade refl refl refl))
        (refl, offer)
  accepts (p ∷ []) (some_text, join, trim, split) offer =
      subst (Accepted (p ∷ []))
        (sym (
          check_response-some lib addr c nonce p (welcomed (p ∷ [])) refl law.lower_websocket
            law.lower_upgrade refl refl refl some_text (rw offer (ground (arith, eq_refl p)))))
        (refl, refl)
  accepts (p ∷ q ∷ ps) one offer = elim one [ ]

  -- A client that offers no subprotocol or one, and whose host and origin are addresses that the
  -- server can read, is accepted by the program's server, and accepts the answer: both end without an
  -- error and with the same subprotocols.
  pub client_handshake-serve :
      (ps : List String)
      → IsOffer lib addr ps
      → c.protocol ≡ ps
      → lib.parse (address lib asked) ≡ some v
      → (ls : List Line) × (d : Config lib) × (serve lib asked e none ≡ conn ls d)
        × ((client_handshake lib addr c u o nonce none (answer_of ls)).1.1 ≡ none)
        × (d.protocol ≡ ps)
        × ((client_handshake lib addr c u o nonce none (answer_of ls)).1.0.protocol ≡ ps)
  unfolding client_handshake request_lines Accepted welcomed
  client_handshake-serve ps one offer here =
      let accept = lib.nonce_accept nonce in
      let ls = welcome_lines lib ps accept in
      let offered_ps : protocols lib (lib.trim_space (asked.header "Sec-Websocket-Protocol")) ≡ ps =
        ap (λ t. protocols lib (lib.trim_space t)) (asked-protocol ps offer)
        ∙ (offer-protocols ps one).0 in
      let checks : (client_handshake lib addr c u o nonce none (answer_of ls)).1
          ≡ check_response lib addr c nonce (welcomed ps) =
        ground (arith, version) in
      let (no_error, same) = subst (Accepted ps) (sym checks) (accepts ps one offer) in
      (
        ls,
        welcome_config lib v w ps accept,
        serve-conn lib asked e v w ps asked-is_upgrade here origin parses offered_ps
            (offer-protocols ps one).1,
        no_error,
        refl,
        same,
      )
