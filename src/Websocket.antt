-- ===== src/Websocket.antt =====
-- The connection under the multiplexer, in Godeps/_workspace/src/code.google.com/p/go.net/websocket.
pub mod Base
pub mod Frame
pub mod Conn
pub mod Handshake
pub mod Socket
pub mod Codec
pub mod Client
