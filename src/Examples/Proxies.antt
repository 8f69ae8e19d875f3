-- ===== src/Examples/Proxies.antt =====
-- A proxy in front of one page, with requests that it sends on, refuses or tunnels.
use Prim.Native.String.{String}
use text.Mathlib.Text.{◌==◌}
use text.Mathlib.TextEquality.{eq_iff}
use n6bagent.Prelude.{
  ℕ, ◌≡◌, ◌≢◌, refl, false, ◌&&◌, none, some, List, [], ◌∷◌, ◌++◌, get_elem?, All, arith,
  if◌then◌else◌,
}
use n6bagent.Goproxy.Http.{Bytes, Header, values, Url, Request, Error, Response, ok, err}
use n6bagent.Goproxy.State.{World, return, RespHandler, Proxy, Transport, new_resp, ◌>>=◌}
use n6bagent.Goproxy.Proxy.{filter_loop, filter_response, respond}
use n6bagent.Goproxy.Proxy.Filters.{rewrites, filter_loop-last}
use n6bagent.Goproxy.Proxy.Headers.{NodupKeys}
use n6bagent.Goproxy.Proxy.Serving.{stripped, answered, respond_lem}
use n6bagent.Goproxy.Dialer.{plain_proxy}
use n6bagent.Goproxy.Connect.Tls.{TlsExchange, tls_loop}
use n6bagent.Goproxy.Connect.Tls.Answers.{tls_loop_illegal}
use n6bagent.Goproxy.Chunked.Decoding.{chunks, joined, unchunk, unchunk-chunks}
use n6bagent.Goproxy.Serve.{Env}
use n6bagent.Examples.Requests.{net_dial}

abbrev page : Url
page = record { scheme = "http"; host = "host"; path = "/page" }

abbrev pub get_page : Request
get_page = record {
  method = "GET";
  url = page;
  url_nil = false;
  host = "host";
  remote_addr = "1.2.3.4:5";
  request_uri = "http://host/page";
  header = ("Connection", "close" ∷ []) ∷ ("Accept", "text/html" ∷ []) ∷ [];
  transfer_encoding = [];
}

abbrev pub connect_host : Request
connect_host = record get_page { method = "CONNECT" }

abbrev the_page : Response
the_page = record {
  status = "200 OK";
  status_code = 200;
  header = ("Content-Type", "text/html" ∷ []) ∷ ("Content-Length", "2" ∷ []) ∷ [];
  body = record { ident = 3; content = 104 ∷ 105 ∷ []; broken = none };
  request = some 0;
  transfer_encoding = [];
  content_length = 2;
}

-- The world of a proxy that got one request.
abbrev pub world_of : Request → World
world_of q = record {
  requests = q ∷ [];
  responses = [];
  ctx = record { req = 0; resp = none; round_tripper = none; error = none; session = 0 };
  sess = 0;
  bodies = 4;
  w_header = [];
  effects = [];
}

-- A server that answers every request with the page.
abbrev pub online : Transport
online = record {
  round_trip = λ r. new_resp the_page >>= λ x. return (ok x);
  custom_round_trip = λ f r. return (err Error.eof);
}

abbrev pub env : Env
env = record {
  hijacker = some (return (ok 7));
  net_dial = net_dial;
  transport = online;
  exchanges = [];
  tls = record { sign = λ ca host. ok 1; handshake = none; conn = 8 };
  tls_exchanges = [];
  itoa = λ n. "200";
}

pub is_http : get_page.url.scheme ≢ ""
is_http = ground (arith, eq_iff "http" "")

page_keys : NodupKeys the_page.header
unfolding values
page_keys = (refl, (refl, tt))

abbrev after_sending : World
after_sending = record (stripped 0 get_page (world_of get_page)) { responses = the_page ∷ [] }

abbrev bad_exchange : TlsExchange
bad_exchange = record {
  closed = false;
  request = ok get_page;
  address = err Error.eof;
  pieces = [];
  status_failure = none;
  header_failure = none;
  end_failure = none;
  body_failure = none;
  last_failure = none;
  trailer_failure = none;
}

tls_loop_illegal_example :
    tls_loop env.itoa online plain_proxy 8 (bad_exchange ∷ []) (world_of connect_host) ≡ none
tls_loop_illegal_example =
    tls_loop_illegal env.itoa online plain_proxy 8 bad_exchange [] get_page Error.eof
      (world_of connect_host) refl refl refl refl

abbrev two_pieces : List Bytes
two_pieces = (104 ∷ 105 ∷ []) ∷ (33 ∷ []) ∷ []

have_bytes : All (λ b. b ≢ []) two_pieces
have_bytes = (ground arith, (ground arith, tt))

unchunk-chunks_example :
    unchunk 3 (chunks two_pieces ++ (13 ∷ 10 ∷ [])) ≡ some (joined two_pieces, 13 ∷ 10 ∷ [])
unchunk-chunks_example = unchunk-chunks two_pieces (13 ∷ 10 ∷ []) have_bytes

-- A response handler that gives the page where there is no response.
abbrev stand_in : RespHandler
stand_in none = new_resp the_page >>= λ x. return (some x)
stand_in (some x) = return (some x)

abbrev patched : Proxy
patched = record plain_proxy { resp_handlers = stand_in ∷ [] }

respond_lem_example :
    (h : Header) × (u : World) × (respond patched 0 after_sending ≡ some (tt, u))
    × (u.effects ≡ answered h the_page)
    × ((k : String)
        → values k h ≡ (if k == "Content-Length" && false then [] else values k the_page.header))
unfolding filter_response
respond_lem_example =
    respond_lem patched 0 0 the_page the_page after_sending
      (record after_sending { ctx = record after_sending.ctx { resp = some 0 } }) refl refl refl
      page_keys

abbrev to_host : String → Request → Request
to_host h q = record q { host = h }

filter_loop-last_example :
    (x : ℕ) × (t : World) × (filter_loop
        (rewrites (to_host "a") ∷ rewrites (to_host "b") ∷ [])
        0
        none
        (world_of get_page)
      ≡ some ((some x, none), t))
    × (get_elem? t.requests x ≡ some (to_host "b" get_page))
filter_loop-last_example =
    filter_loop-last (to_host "a" ∷ []) (to_host "b") 0 none get_page (world_of get_page) refl
