-- ===== src/Examples.antt =====
-- Runs of the theorems on concrete sessions, streams, frames and requests.
mod Sessions
mod Streams
mod Pipes
mod Openings
mod Peers
mod Frames
mod Requests
mod Handshakes
mod Proxies
mod Replays
mod Guards
mod Generators
