-- ===== src/Examples/Openings.antt =====
-- A stream that a client opens and a server accepts.
use n6bagent.Prelude.{[]}
use n6bagent.Yamux.State.{Session}
use n6bagent.Examples.Sessions.{session}

abbrev client : Session
client = record (session []) { next_stream_id = 3 }
