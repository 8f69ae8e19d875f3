-- ===== src/Agent/Proxying.antt =====
-- What the proxy of the program does with the requests on the streams of a session.
use Prim.Native.String.{String}
use n6bagent.Agent.{Serving}
