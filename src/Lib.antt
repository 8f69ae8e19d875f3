-- ===== src/Lib.antt =====
-- n6bagent: a proxy behind a websocket
--
-- The program (server.go) answers on two routes. "/" gives a page. "/websocket" takes the connection
-- over by the websocket handshake, starts a yamux server session on the websocket, and serves the
-- streams of the session by an HTTP proxy. So bytes pass three layers: the frames of the websocket
-- (the client masks them), the frames of yamux in the bytes of the websocket, and the bytes of one
-- stream. The proxy (goproxy) sends plain requests on and opens a tunnel for CONNECT requests, and its
-- users may put handlers in between. All of this is compiled in from Godeps/_workspace/src.
--
-- Below, yamux/ stands for Godeps/_workspace/src/github.com/hashicorp/yamux/, goproxy/ for
-- Godeps/_workspace/src/github.com/elazarl/goproxy/ and websocket/ for
-- Godeps/_workspace/src/code.google.com/p/go.net/websocket/.
--
-- Files, and the code that they model:
--   Prelude           shared names, tests on numbers, lists, Go's int, association lists
--   Yamux/Const       yamux/const.go and util.go: errors, constants, async_notify, min
--   Yamux/Header      yamux/const.go: `header` with its fields and `encode`
--   Yamux/State       the structs Config, Session, Stream and sendReady; waitForSendErr, sendNoWait
--   Yamux/Addr        yamux/addr.go
--   Yamux/Mux         yamux/mux.go: Config, VerifyConfig, Server, Client; newSession
--   Yamux/Stream      yamux/stream.go: the states of a stream, window updates, Close; what frames of
--                     the peer do to it (Stream/Frames)
--   Yamux/Io          yamux/stream.go: Read, Write and write, with their waits
--   Yamux/Session     yamux/session.go: OpenStream, AcceptStream, Close, exitErr, GoAway, Ping
--   Yamux/Recv        yamux/session.go: recv and its handlers, incomingStream
--   Yamux/Send        yamux/session.go: a round of send
--   Yamux/Invariant   what holds of a session between its steps
--   Yamux/Transfer    both ends together: from a Write to a Read
--   Yamux/Pipe        two sessions and the connection between them as a relation of steps, against a
--                     queue of bytes (Pipe/Fifo): what holds at any time (Pipe/Flows), what every run
--                     does (Pipe/Delivery), that it can go on (Pipe/Progress) and come to an end
--                     (Pipe/Drain), and how a stream is opened and accepted (Pipe/Opening)
--   Websocket/Base    websocket/websocket.go and hybi.go: errors and frame types
--   Websocket/Frame   websocket/hybi.go: the bytes of a frame, written and read
--   Websocket/Conn    websocket/hybi.go and websocket.go: Write, Close, the frame handler (Conn/Handler)
--                     and the loop of Read (Conn/Reading); that all output is bytes (Conn/Octets)
--   Websocket/Codec   websocket/websocket.go: Codec, with Message and JSON
--   Websocket/Handshake  websocket/hybi.go and server.go: the handshake of a server
--   Websocket/Client  websocket/hybi.go and client.go: the handshake of a client, that both ends agree
--                     (Client/Agreement), NewClient, DialConfig and Dial (Client/Dial)
--   Websocket/Socket  websocket/websocket.go: the addresses and deadlines of a connection
--   Goproxy/Http      what goproxy uses of the structs of net/http: headers, requests, responses
--   Goproxy/State     goproxy/ctx.go and actions.go; the structs of proxy.go and https.go
--   Goproxy/Proxy     goproxy/proxy.go: the filters, copyHeaders, the answer to a plain request
--   Goproxy/Dispatcher  goproxy/dispatcher.go: conditions, and handlers that are registered under them
--   Goproxy/Chunked   goproxy/chunked.go
--   Goproxy/Connect   goproxy/https.go: actions of CONNECT; the loop of plain requests inside a
--                     connection (Connect/Mitm) and that of requests inside TLS (Connect/Tls)
--   Goproxy/Serve     handleHttps of goproxy/https.go and ServeHTTP of goproxy/proxy.go as a whole
--   Goproxy/Dialer    the dialers of goproxy/https.go, NewProxyHttpServer of goproxy/proxy.go
--   Goproxy/Responses goproxy/responses.go
--   Goproxy/Auth      goproxy/ext/auth/basic.go
--   Goproxy/Counter   goproxy/counterecryptor.go; its counter as a number (Counter/Carry), its bytes as
--                     a stream (Counter/Keystream), its key (Counter/Keys)
--   Goproxy/Regret    goproxy/regretable/regretreader.go; its view as a position in a stream
--                     (Regret/Kept, Regret/Replay), sequences of Reads (Regret/Runs)
--   Agent             server.go, and what its proxy does with requests (Agent/Proxying)
--   Examples          the theorems on concrete data
--
-- State and effects. A method of yamux is a function from a Session to a result and a Session, and
-- `none` is a panic. Streams are shared by pointer between the map of the session, the backlog and
-- the users, so a Session has a store of the streams that were made, and a pointer is a position in
-- it. The connection is the bytes that it will give, the error behind them, and the bytes that it was
-- given. Words of 32 bits wrap around where the code adds to them or takes from them.
--
-- A method of goproxy is a function of a World in the same way: requests and responses are shared by
-- pointer with the handlers, so the world has a store of each, the context of the request, and the
-- list of what was done so far. A handler is any function of a world. Keys of a header are in the
-- canonical form that net/http gives them, and a body is told from another by a number. The loops
-- inside a CONNECT connection run over a list of what each of their rounds meets, so they need no
-- fuel; at the end of the list the loop waits for its next request. Log lines are left out.
--
-- Goroutines. A call that waits takes a `Wait` (or a list of `Wake`s): what the others do to the
-- session before and after it is woken, and which case of the `select` is taken. The theorems hold
-- for any such waits, for those that keep the invariant (`IsFair`), or, where it is said, for
-- undisturbed calls. A round of send takes what each write of the connection takes and whether it
-- fails.
--
-- Yamux/Pipe has one stream of two sessions, established at both ends, with data in one direction and
-- window updates in the other. A step is a pass of Write, a Read, a round of send or of recv, each
-- undisturbed while it runs, or the connection that carries some bytes over; they come in any order.
-- A round of recv is taken when the input has a whole frame, since the code waits for one.
--
-- Fuel. recv takes a number of rounds: each takes twelve bytes of the input, so a twelfth of its
-- length and one more are enough. The loop of Write takes the number of bytes, since each pass
-- writes one at least. Read of a websocket takes a round for every two bytes, the least of a frame,
-- and two more; Receive of a Codec takes one round less. The waits of Read and write are lists, and
-- a call whose list is at its end has not returned.
--
-- Go's libraries are parameters: `Library` and `Addresses` are what the handshakes use of net/http,
-- net/url, strings and the hash, `Net` is net.Dial and tls.Dial for a client, `Transport` is
-- http.Transport with the round trippers that handlers set, `Env` and `Tls` are the connections
-- that a CONNECT request meets, `Outside` is what the dialers use, `Crypto` is what the generator
-- of random bytes is made by, and `Serving` is http.Serve. Random masks are parameters of the
-- writes.
--
-- Not modelled: locks and the order of calls that they give, since each call is one step between
-- its waits; the loggers; the clock (a deadline is a timer that may go off or not, and Ping gives
-- no duration); the certificates, their signing and the configuration of TLS of goproxy, its
-- filters of html and images, its copy of a transport and its examples; net/http/pprof; the text of
-- the page.
pub mod Prelude
pub mod Yamux
pub mod Websocket
pub mod Goproxy
pub mod Agent
pub mod Examples
