-- ===== src/Goproxy/Connect/Tls.antt =====
-- https.go: the loop that reads the requests of a client inside a TLS connection of its own, over
-- what this connection gives. The end of the list is a loop that waits for the next request.
pub mod Answers
use Prim.Native.String
use Prim.Native.String.{String}
use text.Mathlib.Text.{starts_with}
use n6bagent.Prelude.{
  ℕ, Bool, true, false, Option, none, some, List, [], ◌∷◌, ◌++◌, length, if◌then◌else◌,
}
use n6bagent.Goproxy.Chunked
use n6bagent.Goproxy.Http.{Bytes, Header, del, set, Url, Request, Response, Error, Result, ok, err}
use n6bagent.Goproxy.State.{
  ◌>>=◌, ◌>>◌, M, return, panic, emit, load_req, load_resp, save_resp, new_req, deref, writes,
  writes_header, writes_body, closes, ConnectAction, Proxy, Transport, round_trip,
}
use n6bagent.Goproxy.Proxy.{filter_request, filter_response, remove_proxy_headers}
use n6bagent.Goproxy.Connect.{established, strip_port}

-- A round of the TLS loop: whether the client has closed, the request, the address
-- `"https://" + r.Host + req.URL.String()` parsed, the pieces in which io.Copy writes the body, and
-- the errors of the writes of the status, the header, its end, the body, the last chunk and the
-- trailer.
pub record TlsExchange : Type 0 where
  pub closed : Bool
  pub request : Result Request
  pub address : Result Url
  pub pieces : List Bytes
  pub status_failure : Option Error
  pub header_failure : Option Error
  pub end_failure : Option Error
  pub body_failure : Option Error
  pub last_failure : Option Error
  pub trailer_failure : Option Error

-- `req.URL, err = url.Parse(…)`: the address is nil after an error.
abbrev pub with_address : Result Url → Request → Request
with_address (ok u) q = record q { url = u; url_nil = false }
with_address (err e) q = record q { url_nil = true }

-- The log line of an illegal address reads the path of the address, which panics on nil.
abbrev pub illegal : Request → M (Result ℕ)
illegal q = if q.url_nil then panic else return (err (Error.failure "illegal address"))

abbrev pub fetch : Transport → Result Url → ℕ → M (Result ℕ)
fetch net (err e) r = do q ← load_req r; illegal q
fetch net (ok u) r = do remove_proxy_headers r; round_trip net r

abbrev pub fetch_unless : Transport → Result Url → Option ℕ → Option ℕ → M (Result ℕ)
fetch_unless net address r (some resp) = return (ok resp)
fetch_unless net address r none = do q ← deref r; fetch net address q

-- `text[len(code):]`
abbrev pub drop_text : String → String → String
drop_text String.[] t = t
drop_text (String.◌∷◌ c s) String.[] = String.[]
drop_text (String.◌∷◌ c s) (String.◌∷◌ d t) = drop_text s t

-- The text of the status without the code, if it begins with it. `itoa` is strconv.Itoa.
abbrev pub status_line : (ℕ → String) → Response → String
status_line itoa a =
    let code = String.◌++◌ (itoa a.status_code) " " in
    let text = if starts_with a.status code then drop_text code a.status else a.status in
    String.◌++◌ (String.◌++◌ (String.◌++◌ "HTTP/1.1 " code) text) "\r\n"

abbrev pub chunked_header : Header → Header
chunked_header h = set "Transfer-Encoding" "chunked" (del "Content-Length" h)

-- A write, and what follows if it worked.
abbrev pub step : M (Unit {0}) → Option Error → M Bool → M Bool
step m (some e) next = m >> return false
step m none next = m >> next

abbrev pub in_chunks : List Bytes → Bytes
in_chunks [] = []
in_chunks (b ∷ bs) =
    (Chunked.write b
      (record { head_failure = none; taken = length b; body_failure = none; end_failure = none })).0
    ++ in_chunks bs

unfoldable pub write_back : (ℕ → String) → TlsExchange → ℕ → Response → M Bool
write_back itoa x tls a = step (emit (writes tls (status_line itoa a))) x.status_failure (
    step (emit (writes_header tls (chunked_header a.header))) x.header_failure (
      step (emit (writes tls "\r\n")) x.end_failure (
        step (emit (writes_body tls (in_chunks x.pieces))) x.body_failure (
          step (emit (writes_body tls Chunked.close)) x.last_failure
            (step (emit (writes tls "\r\n")) x.trailer_failure (return true))))))

-- The response goes to the client in chunks. The connection is closed however the loop ends.
abbrev pub pass_back :
    (ℕ → String) → Proxy → TlsExchange → ℕ → Result ℕ → M (Unit {0}) → M (Unit {0})
pass_back itoa p x tls (err e) again = emit (closes tls)
pass_back itoa p x tls (ok resp) again = do
  y ← filter_response p (some resp)
  z ← deref y
  a ← load_resp z
  save_resp z (record a { header = chunked_header a.header })
  b ← write_back itoa x tls a
  if b then again else emit (closes tls)

module _ (itoa : ℕ → String) (net : Transport) (p : Proxy) (tls : ℕ) where
  unfoldable pub tls_loop : List TlsExchange → M (Unit {0})
  unfolding write_back
  tls_loop [] = return tt
  tls_loop (x ∷ xs) = if x.closed then emit (closes tls) else elim x.request [
    | err e ↦ emit (closes tls)
    | ok q ↦ do
      r ← new_req (with_address x.address q)
      y ← filter_request p r
      z ← fetch_unless net x.address y.0 y.1
      pass_back itoa p x tls z (tls_loop xs)
  ]

-- What is behind the connection that was taken over: signHost with the given certificate or the
-- proxy's own, the error of the TLS handshake, and the TLS connection.
pub record Tls : Type 0 where
  pub sign : Option ℕ → String → Result ℕ
  pub handshake : Option Error
  pub conn : ℕ

abbrev pub shake : Option Error → M (Unit {0}) → M (Unit {0})
shake (some e) loop = return tt
shake none loop = loop

abbrev pub with_cert : Result ℕ → M (Unit {0}) → M (Unit {0})
with_cert (err e) start = return tt
with_cert (ok cert) start = start

unfoldable pub mitm_tls :
    (ℕ → String)
    → Transport
    → Proxy
    → Tls
    → ConnectAction
    → ℕ
    → String
    → List TlsExchange
    → M (Unit {0})
unfolding tls_loop strip_port
mitm_tls itoa net p t todo client host xs = do
  emit (writes client established)
  with_cert (t.sign todo.ca (strip_port host)) (shake t.handshake (tls_loop itoa net p t.conn xs))
