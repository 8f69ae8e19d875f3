-- ===== src/Goproxy/Proxy/Serving.antt =====
-- What the proxy answers to a plain request.
use Prim.Native.String.{String}
use text.Mathlib.Text.{◌==◌}
use text.Mathlib.TextEquality.{eq_iff}
use n6bagent.Prelude
use n6bagent.Prelude.{
  ℕ, ◌+◌, ◌%◌, ◌^◌, ◌≡◌, ◌≢◌, refl, ◌∙◌, ap, ◌&&◌, not, true, false, Option, none, some, List, [],
  ◌∷◌, ◌++◌, get_elem?, get_elem?-set, append_assoc, if◌then◌else◌, arith,
}
use n6bagent.Goproxy.Http.{Header, values, Request, Response, Error, ok, err}
use n6bagent.Goproxy.Http.Headers.{values-del}
use n6bagent.Goproxy.State.{
  World, Effect, to_client_error, to_client_header, to_client_body, closes_body, Proxy, Transport,
  round_trip,
}
use n6bagent.Goproxy.Proxy.{
  copy_headers, filter_request, filter_response, without_proxy_headers, remove_proxy_headers,
  send_request, obtain, after_round_trip, message, fresh_length, respond, serve_plain,
}
use n6bagent.Goproxy.Proxy.Headers.{NodupKeys, values-copy_headers}

-- The world in which the first handler is called.
abbrev pub begun : ℕ → World → World
begun r s =
    let n = (s.sess + 1) % 2 ^ 64 in
    record s {
      sess = n;
      ctx = record { req = r; resp = none; round_tripper = none; error = none; session = n };
    }

abbrev pub did : List Effect → World → World
did es s = record s { effects = s.effects ++ es }

-- A request to no other server is answered by an error: no handler is called and nothing is sent.
pub serve_plain_relative :
    (net : Transport) (p : Proxy) (r : ℕ) (q : Request) (s : World)
    → get_elem? s.requests r ≡ some q
    → q.url.scheme ≡ ""
    → serve_plain net p r s
      ≡ some (
        tt,
        did
            (to_client_error "This is a proxy server, does not response to non-proxy requests" 500
              ∷ [])
            (begun r s),
      )
unfolding serve_plain
serve_plain_relative net p r q s here relative =
    ground (arith, here, relative, eq_iff q.url.scheme "")

-- The effects of the answer with a response.
abbrev pub answered : Header → Response → List Effect
answered h a =
    to_client_header h a.status_code ∷ to_client_body a.body.content ∷ closes_body a.body.ident ∷ []

-- The response that the handlers leave goes to the client: its status, its body, and a header with
-- its values, except that a content length is left out if the body is not the one that came.
pub respond_lem :
    (p : Proxy) (x y : ℕ) (orig a : Response) (s t : World)
    → get_elem? s.responses x ≡ some orig
    → filter_response p (some x) s ≡ some (some y, t)
    → get_elem? t.responses y ≡ some a
    → NodupKeys (fresh_length orig.body a).header
    → (h : Header) × (u : World) × (respond p x s ≡ some (tt, u))
      × (u.effects ≡ t.effects ++ answered h a)
      × ((k : String)
          → values k h ≡ (
              if k == "Content-Length" && not (Prelude.◌==◌ orig.body.ident a.body.ident)
              then []
              else values k a.header))
unfolding respond
respond_lem p x y orig a s t here filtered there nodup =
    let b = fresh_length orig.body a in
    let h = copy_headers t.w_header b.header in
    (
      h,
      did (answered h a) (record t { responses = Prelude.set t.responses y b; w_header = h }),
      ground (
        arith,
        here,
        filtered,
        there,
        append_assoc t.effects (to_client_header h a.status_code ∷ [])
            (to_client_body a.body.content ∷ []),
        append_assoc t.effects
            (to_client_header h a.status_code ∷ to_client_body a.body.content ∷ [])
            (closes_body a.body.ident ∷ []),
      ),
      refl,
      λ k.
          values-copy_headers t.w_header b.header k nodup
          ∙ ground (
            arith,
            eq_iff "Content-Length" k,
            eq_iff k "Content-Length",
            values-del "Content-Length" k a.header,
          ),
    )

-- The world in which a request is sent that no handler has changed.
abbrev pub stripped : ℕ → Request → World → World
stripped r q s = record (begun r s) {
  requests = Prelude.set s.requests r (without_proxy_headers q);
}

module _ (net : Transport) (p : Proxy) (r : ℕ) (q : Request) (s t : World)
    (no_req_handlers : p.req_handlers ≡ []) (here : get_elem? s.requests r ≡ some q)
    (absolute : q.url.scheme ≢ "") where
  bare_request : filter_request p r (begun r s) ≡ some ((some r, none), begun r s)
  unfolding filter_request
  bare_request = rw no_req_handlers

  removed : remove_proxy_headers r (begun r s) ≡ some (tt, stripped r q s)
  unfolding remove_proxy_headers
  removed = ground (arith, here)

  -- A proxy with no request handlers answers an absolute request whose round trip succeeds with the
  -- response, as its response handlers leave it. The request is sent as it came, but for the headers
  -- of the one hop.
  pub serve_plain_forward :
      (x : ℕ)
      → net.round_trip r (stripped r q s) ≡ some (ok x, t)
      → serve_plain net p r s ≡ respond p x t
  unfolding serve_plain obtain send_request round_trip after_round_trip
  serve_plain_forward x sent =
      ground (arith, here, bare_request, removed, sent, eq_iff q.url.scheme "")

  -- If the round trip fails and the response handlers make no response of that, the client gets the
  -- error with status 500.
  pub serve_plain_unreachable :
      (e : Error) (u : World)
      → net.round_trip r (stripped r q s) ≡ some (err e, t)
      → filter_response p none (record t { ctx = record t.ctx { error = some e } }) ≡ some (none, u)
      → serve_plain net p r s ≡ some (tt, did (to_client_error (message e) 500 ∷ []) u)
  unfolding serve_plain obtain send_request round_trip after_round_trip
  serve_plain_unreachable e u failed nothing =
      ground (arith, here, bare_request, removed, failed, nothing, eq_iff q.url.scheme "")

  -- If they do make a response of it, this response goes through all of the response handlers again.
  pub serve_plain_refilters :
      (e : Error) (x : ℕ) (u : World)
      → net.round_trip r (stripped r q s) ≡ some (err e, t)
      → filter_response p none (record t { ctx = record t.ctx { error = some e } })
        ≡ some (some x, u)
      → serve_plain net p r s ≡ respond p x u
  unfolding serve_plain obtain send_request round_trip after_round_trip
  serve_plain_refilters e x u failed made =
      ground (arith, here, bare_request, removed, failed, made, eq_iff q.url.scheme "")
