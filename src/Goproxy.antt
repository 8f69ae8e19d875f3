-- ===== src/Goproxy.antt =====
-- github.com/elazarl/goproxy: the proxy that serves the streams of a session.
pub mod Http
pub mod State
pub mod Proxy
pub mod Dispatcher
pub mod Chunked
pub mod Connect
pub mod Serve
pub mod Dialer
pub mod Responses
pub mod Auth
pub mod Counter
pub mod Regret
