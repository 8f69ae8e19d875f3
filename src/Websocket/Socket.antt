-- ===== src/Websocket/Socket.antt =====
-- websocket.go: the addresses of a connection, its deadlines, and which end it is.
use n6bagent.Prelude.{ℕ, Bool, true, false, ◌≡◌, Option, none, some, arith, if◌then◌else◌}
use n6bagent.Websocket.Base.{Error, err_set_deadline}
use n6bagent.Websocket.Handshake.{Library, Config, Request}

-- What is asked of a net.Conn.
pub data Deadline : Type 0 where
  both reads writes : ℕ → Deadline

module _ (lib : Library) where
  -- What Conn keeps besides its frames. `net_conn` is what the connection below says to a deadline,
  -- if it is a net.Conn.
  pub record Socket : Type 0 where
    pub config : Config lib
    pub request : Option Request
    pub net_conn : Option (Deadline → Option Error)

  unfoldable pub is_client_conn : Socket → Bool
  is_client_conn ws = elim ws.request [ none ↦ true | some r ↦ false ]

  unfoldable pub is_server_conn : Socket → Bool
  is_server_conn ws = elim ws.request [ none ↦ false | some r ↦ true ]

  -- The address in an Addr; Addr may hold no address.
  unfoldable pub local_addr : Socket → Option lib.Url
  unfolding is_client_conn
  local_addr ws = if is_client_conn ws then ws.config.origin else ws.config.location

  unfoldable pub remote_addr : Socket → Option lib.Url
  unfolding is_client_conn
  remote_addr ws = if is_client_conn ws then ws.config.location else ws.config.origin

  abbrev pub ask_net_conn : Deadline → Socket → Option Error
  ask_net_conn d ws = elim ws.net_conn [ none ↦ some err_set_deadline | some f ↦ f d ]

  unfoldable pub set_deadline : ℕ → Socket → Option Error
  set_deadline t ws = ask_net_conn (both t) ws

  unfoldable pub set_read_deadline : ℕ → Socket → Option Error
  set_read_deadline t ws = ask_net_conn (reads t) ws

  unfoldable pub set_write_deadline : ℕ → Socket → Option Error
  set_write_deadline t ws = ask_net_conn (writes t) ws

  -- The two ends of one connection, if both hold the same addresses: what is local to the client is
  -- remote to the server, and the other way round.
  pub local_addr-remote_addr :
      (client server : Socket) (r : Request)
      → client.request ≡ none
      → server.request ≡ some r
      → client.config.origin ≡ server.config.origin
      → client.config.location ≡ server.config.location
      → (local_addr client ≡ remote_addr server) × (remote_addr client ≡ local_addr server)
  unfolding local_addr remote_addr is_client_conn
  local_addr-remote_addr client server r none_here some_there origin location =
      ground (arith, none_here, some_there, origin, location)
