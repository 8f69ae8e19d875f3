-- ===== src/Yamux/Mux.antt =====
-- mux.go and newSession of session.go: the configuration, and the start of a session.
pub mod Start
use n6bagent.Prelude.{
  ℕ, Bool, true, false, pos, is_nonpos, is_zero, Option, none, some, [], ltb, if◌then◌else◌,
}
use n6bagent.Yamux.Const.{Error, bad_backlog, bad_interval, bad_window, initial_stream_window}
use n6bagent.Yamux.Header.{Bytes}
use n6bagent.Yamux.State.{Config, Session}

-- The interval is 30 seconds, in nanoseconds.
unfoldable pub default_config : Config
default_config = record {
  accept_backlog = pos 256;
  enable_keep_alive = true;
  keep_alive_interval = pos 30_000_000_000;
  max_stream_window_size = initial_stream_window;
}

unfoldable pub verify_config : Config → Option Error
verify_config c =
    if is_nonpos c.accept_backlog
    then some bad_backlog
    else if is_zero c.keep_alive_interval
    then some bad_interval
    else if ltb c.max_stream_window_size initial_stream_window
    then some bad_window
    else none

-- The connection is given by the bytes that it will deliver and the error behind them. The
-- goroutines that are started are the functions `recv`, `send` and `keepalive`.
unfoldable pub new_session : Config → Bytes → Error → Bool → Session
new_session config input input_end client = record {
  remote_go_away = 0;
  local_go_away = 0;
  next_stream_id = if client then 1 else 2;
  config = config;
  pings = [];
  ping_id = 0;
  closed_chans = [];
  chan_count = 0;
  store = [];
  streams = [];
  accept_ch = [];
  send_ch = [];
  shutdown = false;
  shutdown_err = none;
  shutdown_ch = false;
  conn_closed = false;
  input = input;
  input_end = input_end;
  output = [];
}

-- A session, or the error of a refused configuration.
pub data Started : Type 0 where
  started : Session → Started
  refused : Error → Started

abbrev or_default : Option Config → Config
or_default none = default_config
or_default (some c) = c

start_with : Config → Option Error → Bytes → Error → Bool → Started
unfolding new_session
start_with c (some e) input input_end client = refused e
start_with c none input input_end client = started (new_session c input input_end client)

unfoldable pub server : Option Config → Bytes → Error → Started
unfolding start_with verify_config
server config input input_end =
    let c = or_default config in start_with c (verify_config c) input input_end false

unfoldable pub client : Option Config → Bytes → Error → Started
unfolding start_with verify_config
client config input input_end =
    let c = or_default config in start_with c (verify_config c) input input_end true
