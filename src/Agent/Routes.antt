-- ===== src/Agent/Routes.antt =====
-- What the program does with a request on its websocket route.
use n6bagent.Prelude.{
  ◌≡◌, refl, Bool, true, false, Option, none, some, List, [], ◌∷◌, ◌++◌, ap, ◌∙◌, if◌then◌else◌,
}
use n6bagent.Websocket.Base
use n6bagent.Websocket.Handshake.{Library, Request, Served, conn, no_conn, serve}
use n6bagent.Websocket.Handshake.Outcomes.{is_welcome, serve-is_welcome, is_conn}
use n6bagent.Goproxy.State.{Proxy}
use n6bagent.Goproxy.Dialer.{new_proxy_http_server}
use n6bagent.Yamux.Const
use n6bagent.Yamux.Header.{Bytes}
use n6bagent.Yamux.State.{Session}
use n6bagent.Yamux.Mux.{default_config, new_session}
use n6bagent.Yamux.Mux.Start.{start_default}
use n6bagent.Agent.{
  Serving, Effect, serves, closes_rwc, websocket_callback, websocket_route, served, on_conn,
}

module _ (srv : Serving) where
  -- The session that the program starts on a connection, and the proxy that serves it.
  abbrev pub session_on : Bytes → Const.Error → Session
  session_on input e = new_session default_config input e false

  abbrev pub the_proxy : Proxy
  the_proxy = record (new_proxy_http_server srv.outside srv.net_dial) { verbose = true }

  -- The program never fails to start its session: it serves a server session of the default
  -- configuration by a verbose proxy, and when serving ends with an error it logs the error and
  -- closes the websocket, in this order, and does nothing more otherwise.
  pub websocket_callback_lem :
      (input : Bytes) (e : Const.Error)
      → websocket_callback srv input e
        ≡ serves (session_on input e) the_proxy
          ∷ served srv (srv.http_serve (session_on input e) the_proxy)
  unfolding websocket_callback
  websocket_callback_lem input e = rw (start_default input e).0

  -- The sessions that a list of effects serves.
  abbrev pub sessions : List (Effect srv) → List Session
  sessions [] = []
  sessions (serves s p ∷ es) = s ∷ sessions es
  sessions (e ∷ es) = sessions es

  abbrev is_close : Effect srv → Bool
  is_close closes_rwc = true
  is_close e = false

  -- Whether the connection that was taken over is closed last.
  abbrev pub ends_closed : List (Effect srv) → Bool
  ends_closed [] = false
  ends_closed (e ∷ []) = is_close e
  ends_closed (e ∷ f ∷ es) = ends_closed (f ∷ es)

  served-sessions :
      (r : Option srv.Failure)
      → (sessions (served srv r ++ closes_rwc ∷ []) ≡ [])
        × ((s : Session) (p : Proxy)
            → ends_closed (serves s p ∷ (served srv r ++ closes_rwc ∷ [])) ≡ true)
  served-sessions none = (refl, λ s p. refl)
  served-sessions (some x) = (refl, λ s p. refl)

  -- What is done with a connection, or without one, once its session is known.
  on_conn_lem :
      {lib : Library} (x : Served lib) (input : Bytes) (e : Const.Error)
      → (sessions (on_conn srv x input e) ≡ (if is_conn lib x then session_on input e ∷ [] else []))
        × (ends_closed (on_conn srv x input e) ≡ true)
  on_conn_lem (no_conn ls f) input e = (refl, refl)
  on_conn_lem (conn ls c) input e =
      let s = session_on input e in
      let r = served-sessions (srv.http_serve s the_proxy) in
      rw (websocket_callback_lem input e, r.0, r.1 s the_proxy) (refl, refl)

  -- On the websocket route the program serves one session, the server's, for exactly the requests
  -- that the handshake wants, and none for any other; the connection that was taken over is closed
  -- at the end in both cases.
  pub websocket_route_lem :
      (lib : Library) (req : Request) (e : Base.Error) (input : Bytes) (input_end : Const.Error)
      → let es = websocket_route srv lib req e none input input_end in
        (sessions es ≡ (if is_welcome lib req then session_on input input_end ∷ [] else []))
        × (ends_closed es ≡ true)
  unfolding websocket_route
  websocket_route_lem lib req e input input_end =
      let x = on_conn_lem (serve lib req e none) input input_end in
      let w =
        ap (λ b. if b then session_on input input_end ∷ [] else []) (serve-is_welcome lib req e) in
      (x.0 ∙ w, x.1)
