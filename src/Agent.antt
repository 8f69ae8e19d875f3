-- ===== src/Agent.antt =====
-- server.go: the program itself, over the models of websocket, yamux and goproxy.
pub mod Routes
pub mod Proxying
use Prim.Native.String.{String}
use text.Mathlib.Text.{◌==◌}
use n6bagent.Prelude.{true, Option, none, some, List, [], ◌∷◌, ◌++◌, if◌then◌else◌}
use n6bagent.Websocket.Base
use n6bagent.Websocket.Handshake.{Library, Line, Request, Served, conn, no_conn, serve}
use n6bagent.Goproxy.State.{Dial, Proxy}
use n6bagent.Goproxy.Dialer.{Outside, new_proxy_http_server}
use n6bagent.Yamux.Const
use n6bagent.Yamux.Header.{Bytes}
use n6bagent.Yamux.State.{Session}
use n6bagent.Yamux.Mux.{Started, started, refused, server}

-- What the program uses of http.Serve and of the outside: the error with which serving the streams of
-- a session by a proxy ends (it returns when the session's Accept fails), and what a new proxy uses.
pub record Serving : Type 1 where
  pub Failure : Type 0
  pub outside : Outside
  pub net_dial : Dial
  pub http_serve : Session → Proxy → Option Failure

module _ (srv : Serving) where
  -- What the program does to the world, in order.
  pub data Effect : Type 0 where
    writes_page : Effect
    serves : Session → Proxy → Effect
    logs_start : Const.Error → Effect
    logs_serve : srv.Failure → Effect
    closes_ws : Effect
    answers : List Line → Effect
    closes_rwc : Effect

  -- indexCallback: the constant page.
  unfoldable pub index_callback : List Effect
  index_callback = writes_page ∷ []

  abbrev pub served : Option srv.Failure → List Effect
  served none = []
  served (some e) = logs_serve e ∷ closes_ws ∷ []

  abbrev pub on_start : Started → List Effect
  on_start (refused e) = logs_start e ∷ closes_ws ∷ []
  on_start (started s) =
      let proxy = record (new_proxy_http_server srv.outside srv.net_dial) { verbose = true } in
      serves s proxy ∷ served (srv.http_serve s proxy)

  -- websocketCallback on a connection that will deliver these bytes: a server session with no
  -- configuration given.
  unfoldable pub websocket_callback : Bytes → Const.Error → List Effect
  websocket_callback input input_end = on_start (server none input input_end)

  abbrev pub on_conn : {lib : Library} → Served lib → Bytes → Const.Error → List Effect
  on_conn (no_conn ls e) input input_end = answers ls ∷ closes_rwc ∷ []
  on_conn (conn ls c) input input_end =
      answers ls ∷ (websocket_callback input input_end ++ closes_rwc ∷ [])

  -- The route `/websocket`: websocket.Handler of websocketCallback. The connection that was taken
  -- over is closed when the handler is done.
  unfoldable pub websocket_route :
      (lib : Library) → Request → Base.Error → Option Base.Error → Bytes → Const.Error → List Effect
  unfolding websocket_callback
  websocket_route lib req e flush input input_end = on_conn (serve lib req e flush) input input_end

-- The two patterns that main registers; ServeMux takes the longer one that fits.
pub data Route : Type 0 where
  index websocket : Route

pub record Listening : Type 0 where
  pub address : String × String
  pub routes : List (String × Route)

-- main: the port is that of the environment, or 8080.
unfoldable pub main : String → Listening
main env = record {
  address = (":", if env == "" then "8080" else env);
  routes = ("/", index) ∷ ("/websocket", websocket) ∷ [];
}
