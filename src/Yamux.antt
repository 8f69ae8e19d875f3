-- ===== src/Yamux.antt =====
-- The session multiplexer under Godeps/_workspace/src/github.com/hashicorp/yamux.
pub mod Const
pub mod Header
pub mod State
pub mod Stream
pub mod Mux
pub mod Addr
pub mod Session
pub mod Recv
pub mod Io
pub mod Send
pub mod Invariant
pub mod Transfer
pub mod Pipe
