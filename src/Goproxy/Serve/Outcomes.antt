-- ===== src/Goproxy/Serve/Outcomes.antt =====
-- What becomes of a CONNECT request.
use Prim.Native.String.{String}
use text.Mathlib.TextEquality.{eq_iff}
use n6bagent.Prelude.{
  ℕ, ◌≡◌, ◌≢◌, refl, ◌∙◌, none, some, List, [], ◌∷◌, ◌++◌, get_elem?, arith, Option-cases, inl, inr,
}
use n6bagent.Goproxy.Http.{Request, Result, ok}
use n6bagent.Goproxy.State.{World, M, ◌>>=◌, HttpsHandler, ConnectAction, Proxy}
use n6bagent.Goproxy.Proxy.{serve_plain}
use n6bagent.Goproxy.Proxy.Serving.{begun}
use n6bagent.Goproxy.Connect.{decide, connect_dial, accept_connect, tunnel, with_port}
use n6bagent.Goproxy.Serve.{Env, serve_http, handle_https, connect}

-- Each of the handlers leaves the decision as it is.
abbrev pub Abstain : List HttpsHandler → String → World → World → Type 0
Abstain [] host s t = s ≡ t
Abstain (h ∷ hs) host s t =
    (o : String) × (u : World) × (h host s ≡ some ((none, o), u)) × Abstain hs host u t

decide_none :
    (hs : List HttpsHandler) (todo : ConnectAction) (host : String) (s t : World)
    → Abstain hs host s t
    → decide hs todo host s ≡ some ((todo, host), t)
unfolding decide
decide_none [] todo host s t same = rw same
decide_none (h ∷ hs) todo host s t (o, u, e, more) =
    rw (e, ◌>>=◌) (decide_none hs todo host u t more)

decide-append :
    (hs more : List HttpsHandler) (todo : ConnectAction) (host : String) (s : World)
    → decide (hs ++ more) todo host s ≡ (decide hs todo host >>= (λ x. decide more x.0 x.1)) s
unfolding decide
decide-append [] more todo host s = refl
decide-append (g ∷ hs) more todo host s = elim (Option-cases (g host s)) [
  | inl stops ↦ rw (stops, ◌>>=◌)
  | inr (((none, o), u), e) ↦ rw (e, ◌>>=◌) (decide-append hs more todo host u)
  | inr (((some a, o), u), e) ↦ rw (e, ◌>>=◌) (decide-append hs more a o u)
]

-- The last handler that decides settles what is done and with which host: whatever the handlers
-- before it decided, and if those behind it leave the decision as it is.
pub decide-last :
    (hs more : List HttpsHandler) (h : HttpsHandler) (todo before a : ConnectAction)
    (host host' host'' : String) (s t u v : World)
    → decide hs todo host s ≡ some ((before, host'), t)
    → h host' t ≡ some ((some a, host''), u)
    → Abstain more host'' u v
    → decide (hs ++ h ∷ more) todo host s ≡ some ((a, host''), v)
unfolding decide
decide-last hs more h todo before a host host' host'' s t u v first decides rest =
    decide-append hs (h ∷ more) todo host s
    ∙ rw (first, ◌>>=◌) (rw (decides, ◌>>=◌) (decide_none more a host'' u v rest))

-- A proxy with no handlers for CONNECT opens a tunnel to the host that is asked for, on port 80 if
-- it names none: the client is told, and both directions are copied. If the connection fails the
-- client gets status 502 and is closed.
pub serve_http-tunnel :
    (env : Env) (p : Proxy) (r c : ℕ) (q : Request) (target : Result ℕ) (s t u : World)
    (h : M (Result ℕ))
    → get_elem? s.requests r ≡ some q
    → q.method ≡ "CONNECT"
    → p.https_handlers ≡ []
    → env.hijacker ≡ some h
    → h (begun r s) ≡ some (ok c, t)
    → get_elem? t.requests r ≡ some q
    → connect_dial env.net_dial p "tcp" (with_port q.url.host) t ≡ some (target, u)
    → serve_http env p r s ≡ tunnel c target u
unfolding serve_http handle_https connect accept_connect decide
serve_http-tunnel env p r c q target s t u h here method bare has taken there dialed =
    ground (arith, here, method, bare, has, taken, there, dialed, eq_iff q.method "CONNECT")

-- Any other request is a plain one.
pub serve_http_plain :
    (env : Env) (p : Proxy) (r : ℕ) (q : Request) (s : World)
    → get_elem? s.requests r ≡ some q
    → q.method ≢ "CONNECT"
    → serve_http env p r s ≡ serve_plain env.transport p r s
unfolding serve_http
serve_http_plain env p r q s here method = ground (arith, here, eq_iff q.method "CONNECT")
