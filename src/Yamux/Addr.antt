-- ===== src/Yamux/Addr.antt =====
-- addr.go: the addresses of a session and its streams.
use Prim.Native.String.{String}
use n6bagent.Prelude.{Option, none, some}
use n6bagent.Websocket.Handshake.{Library}
use n6bagent.Websocket.Socket.{Socket}
use n6bagent.Websocket.Socket

-- An address of yamux, or one of the connection below.
pub data Addr (A : Type 0) : Type 0 where
  yamux_addr : String → Addr A
  below : A → Addr A

-- hasAddr: the addresses of the connection below.
pub record HasAddr (A : Type 0) : Type 0 where
  pub local_addr : A
  pub remote_addr : A

-- Network and String; `network` and `text` are those of the connection's addresses, and `concat`
-- is what fmt.Sprintf does with two texts.
unfoldable pub network : {A : Type 0} → (A → String) → Addr A → String
network f (yamux_addr s) = "yamux"
network f (below a) = f a

unfoldable pub text : {A : Type 0} → (String → String → String) → (A → String) → Addr A → String
text concat f (yamux_addr s) = concat "yamux:" s
text concat f (below a) = f a

-- LocalAddr and RemoteAddr of a session on a connection that has addresses, or has none. Addr of
-- the session and LocalAddr of its streams are the first, RemoteAddr of its streams the second.
unfoldable pub local_addr : {A : Type 0} → Option (HasAddr A) → Addr A
local_addr none = yamux_addr "local"
local_addr (some c) = below c.local_addr

unfoldable pub remote_addr : {A : Type 0} → Option (HasAddr A) → Addr A
remote_addr none = yamux_addr "remote"
remote_addr (some c) = below c.remote_addr

-- A websocket as the connection below.
abbrev pub of_socket : (lib : Library) → Socket lib → HasAddr (Option lib.Url)
of_socket lib ws = record {
  local_addr = Socket.local_addr lib ws;
  remote_addr = Socket.remote_addr lib ws;
}
