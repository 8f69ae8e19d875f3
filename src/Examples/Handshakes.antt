-- ===== src/Examples/Handshakes.antt =====
-- A client that offers one subprotocol to the server.
use Prim.Native.String.{String}
use text.Mathlib.Text.{◌==◌}
use text.Mathlib.TextEquality.{eq_iff}
use n6bagent.Prelude.{◌≡◌, refl, false, none, some, List, [], ◌∷◌, arith, if◌then◌else◌}
use n6bagent.Websocket.Base.{eof}
use n6bagent.Websocket.Handshake.{Library, Line, Config, conn, serve}
use n6bagent.Websocket.Client.{Addresses, request_lines}
use n6bagent.Websocket.Client.Agreement.{Lawful, answer_of, request_of}
use n6bagent.Websocket.Conn.{new_hybi_conn}
use n6bagent.Websocket.Client.Dial.{Peer, reached, connected, served_lines, dial_to, dial_to-serve}

abbrev lib : Library
lib = record {
  Url = String;
  to_lower = λ s. if s == "Upgrade" then "upgrade" else s;
  contains = λ s t. s == t;
  trim_space = λ s. s;
  split = λ s t. s ∷ [];
  parse = λ s. if s == "" then none else some s;
  nonce_accept = λ s. s;
  concat = λ s t. if s == "" then t else s;
  message = λ e. "";
}

abbrev addr : Addresses lib
addr = record {
  host = λ u. "host";
  request_uri = λ u. "/websocket";
  scheme = λ u. "ws";
  text_of = λ u. u;
  join = first;
}
  where
    first : List String → String
    first [] = ""
    first (p ∷ ps) = p

law : Lawful lib
law = record {
  lower_websocket = refl;
  lower_upgrade = refl;
  contains_upgrade = refl;
  trim_empty = refl;
}

abbrev config : Config lib
config = record {
  location = some "ws://host/websocket";
  origin = some "here";
  protocol = "chat" ∷ [];
  version = 13;
  extra = some [];
  accept = "";
}

-- The request of the client, and a connection to the program's server.
abbrev asked : List Line
asked = request_lines lib addr config "ws://host/websocket" "here" "nonce"

abbrev peer : Peer
peer = record {
  flush = none;
  answers_to =
      λ ls. answer_of (served_lines (serve lib (request_of "/websocket" false ls) eof none));
  input = [];
  input_end = eof;
}

dial_to-serve_example :
    let q = request_of "/websocket" false asked in
    (ls : List Line) × (d r : Config lib) × (serve lib q eof none ≡ conn ls d)
    × (dial_to lib addr (λ b host. reached peer) config "nonce"
        ≡ connected asked r (new_hybi_conn false [] eof))
    × (d.protocol ≡ "chat" ∷ [])
    × (r.protocol ≡ "chat" ∷ [])
unfolding request_lines
dial_to-serve_example =
    dial_to-serve lib addr law config "ws://host/websocket" "here" "ws" "here" "nonce" eof refl refl
      (ground (arith, eq_iff "nonce" "")) (ground (arith, eq_iff "here" "null")) refl
      (λ b host. reached peer) peer ("chat" ∷ []) refl refl refl refl refl refl
      (ground (arith, eq_iff "chat" ""), refl, refl, refl) refl refl
