-- ===== src/Goproxy/Auth/Guarding.antt =====
-- What a proxy answers that wants a name and a password.
use Prim.Native.String
use Prim.Native.String.{String}
use text.Mathlib.TextEquality.{eq_iff}
use n6bagent.Prelude
use n6bagent.Prelude.{
  ℕ, ◌+◌, ◌≡◌, ◌≢◌, refl, ◌∙◌, ap, sym, Bool, true, false, Option, none, some, List, [], ◌∷◌, ◌++◌,
  append_assoc, get_elem?, get_elem?-append_length, length, arith, subst,
}
use n6bagent.Goproxy.Http.{Header, values, Request, Response, Result, ok}
use n6bagent.Goproxy.State.{
  World, M, ◌>>=◌, HttpsHandler, ConnectAction, ReqHandler, Proxy, Transport, connect_reject,
  writes_response, closes,
}
use n6bagent.Goproxy.Proxy.{
  filter_request, filter_response, filter_loop, serve_plain, fresh_length, obtain,
}
use n6bagent.Goproxy.Proxy.Headers.{NodupKeys}
use n6bagent.Goproxy.Proxy.Serving.{begun, did, answered, respond_lem}
use n6bagent.Goproxy.Dispatcher.{guarded, guarded_connect, all_hold, plain_action}
use n6bagent.Goproxy.Connect.{decide, ok_connect, reject_connect}
use n6bagent.Goproxy.Serve.Outcomes.{decide-last}
use n6bagent.Goproxy.Serve.{Env, serve_http, handle_https, connect}
use n6bagent.Goproxy.Auth.{
  Check, is_authorized, without_authorization, unauthorized, basic_unauthorized, auth, basic,
  basic_connect,
}

-- The world after auth, and after a refusal.
abbrev pub looked_at : ℕ → Request → World → World
looked_at r q s = record s { requests = Prelude.set s.requests r (without_authorization q) }

abbrev pub refused : ℕ → String → Request → World → World
refused r realm q s = record (looked_at r q s) {
  responses = s.responses ++ unauthorized r realm s.bodies ∷ [];
  bodies = s.bodies + 1;
}

module _ (decode : String → Option String) (realm : String) (f : Check) where
  first_refuses :
      (more : List ReqHandler) (r : ℕ) (q : Request) (s : World) (o : Option ℕ)
      → get_elem? s.requests r ≡ some q
      → is_authorized decode f q ≡ false
      → filter_loop (guarded [] (basic decode realm f) ∷ more) r o s
        ≡ some ((none, some (length s.responses)), refused r realm q s)
  unfolding filter_loop guarded all_hold basic auth basic_unauthorized
  first_refuses more r q s o here bad = ground (arith, here, bad)

  -- A request with a name and a password that are accepted goes on to the next handlers without
  -- them.
  pub authorized_passes :
      (more : List ReqHandler) (r : ℕ) (q : Request) (s : World) (o : Option ℕ)
      → get_elem? s.requests r ≡ some q
      → is_authorized decode f q ≡ true
      → filter_loop (guarded [] (basic decode realm f) ∷ more) r o s
        ≡ filter_loop more r (some r) (looked_at r q s)
  unfolding filter_loop guarded all_hold basic auth
  authorized_passes more r q s o here good = ground (arith, here, good)

  -- An absolute request without a name and a password that are accepted gets status 407 and the
  -- realm, if the first request handler wants them and there are no response handlers. No other
  -- handler is called, and nothing is sent.
  pub unauthorized_plain :
      (net : Transport) (p : Proxy) (more : List ReqHandler) (r : ℕ) (q : Request) (s : World)
      → p.req_handlers ≡ guarded [] (basic decode realm f) ∷ more
      → p.resp_handlers ≡ []
      → get_elem? s.requests r ≡ some q
      → q.url.scheme ≢ ""
      → is_authorized decode f q ≡ false
      → (h : Header) × (u : World) × (serve_plain net p r s ≡ some (tt, u))
        × (u.effects ≡ s.effects ++ answered h (unauthorized r realm s.bodies))
        × (values "Proxy-Authenticate" h ≡ String.◌++◌ "Basic realm=" realm ∷ [])
  unfolding serve_plain filter_request obtain filter_response values
  unauthorized_plain net p more r q s first no_resp here absolute bad =
      let a = unauthorized r realm s.bodies in
      let x = length s.responses in
      let t = refused r realm q (begun r s) in
      let there : get_elem? t.responses x ≡ some a = get_elem?-append_length s.responses a in
      let filtered : filter_response p (some x) t ≡ some (some x, t) = rw no_resp in
      let same : fresh_length a.body a ≡ a = ground arith in
      let (h, u, runs, effects, vals) =
        respond_lem p x x a a t t there filtered there
          (subst (λ (b : Response). NodupKeys b.header) (sym same) (refl, tt)) in
      (
        h,
        u,
        ground (
          arith,
          here,
          first,
          first_refuses more r q (begun r s) (some r) here bad,
          eq_iff q.url.scheme "",
        )
            ∙ runs,
        effects,
        vals "Proxy-Authenticate",
      )

  -- The world after a refusal of a CONNECT request.
  abbrev pub refused_connect : ℕ → Request → World → World
  refused_connect r q s =
      let t = refused r realm q s in
      record t { ctx = record t.ctx { resp = some (length s.responses) } }

  connect_refuses :
      (host : String) (q : Request) (s : World)
      → get_elem? s.requests s.ctx.req ≡ some q
      → is_authorized decode f q ≡ false
      → guarded_connect [] (basic_connect decode realm f) host s
        ≡ some ((some (plain_action connect_reject), host), refused_connect s.ctx.req q s)
  unfolding guarded_connect all_hold basic_connect auth basic_unauthorized
  connect_refuses host q s here bad = ground (arith, here, bad)

  rejects :
      (c : ℕ) (a : Response) (s : World) (x : ℕ)
      → s.ctx.resp ≡ some x
      → get_elem? s.responses x ≡ some a
      → reject_connect c s ≡ some (tt, did (writes_response c a ∷ closes c ∷ []) s)
  unfolding reject_connect
  rejects c a s x made here =
      ground (arith, made, here, append_assoc s.effects (writes_response c a ∷ []) (closes c ∷ []))

  -- If no other handler decides on CONNECT requests, one without a name and a password that are
  -- accepted is answered on its connection with status 407 and closed.
  pub unauthorized_connect :
      (env : Env) (p : Proxy) (r c : ℕ) (q : Request) (s t : World) (h : M (Result ℕ))
      → p.https_handlers ≡ guarded_connect [] (basic_connect decode realm f) ∷ []
      → get_elem? s.requests r ≡ some q
      → q.method ≡ "CONNECT"
      → env.hijacker ≡ some h
      → h (begun r s) ≡ some (ok c, t)
      → t.ctx.req ≡ r
      → get_elem? t.requests r ≡ some q
      → is_authorized decode f q ≡ false
      → (u : World) × (serve_http env p r s ≡ some (tt, u))
        × (u.effects
            ≡ t.effects ++ writes_response c (unauthorized r realm t.bodies) ∷ closes c ∷ [])
  unfolding serve_http handle_https connect decide reject_connect
  unauthorized_connect env p r c q s t h only here method has taken now there bad =
      let a = unauthorized r realm t.bodies in
      let v = refused_connect r q t in
      let answers : reject_connect c v ≡ some (tt, did (writes_response c a ∷ closes c ∷ []) v) =
        rejects c a v (length t.responses) refl (get_elem?-append_length t.responses a) in
      let there' : get_elem? t.requests t.ctx.req ≡ some q = rw now there in
      let decided : decide p.https_handlers ok_connect q.url.host t
          ≡ some ((plain_action connect_reject, q.url.host), v) =
        rw (only, connect_refuses q.url.host q t there' bad, ◌>>=◌, now) refl in
      (
        did (writes_response c a ∷ closes c ∷ []) v,
        ground
            (arith, here, method, has, taken, there, decided, answers, eq_iff q.method "CONNECT"),
        refl,
      )

  -- A handler of CONNECT requests that is registered after the one that wants a name and a password,
  -- and decides, settles what is done: also of a request that has none.
  pub unauthorized_overruled :
      (h : HttpsHandler) (todo a : ConnectAction) (host host' : String) (q : Request) (s u : World)
      → get_elem? s.requests s.ctx.req ≡ some q
      → is_authorized decode f q ≡ false
      → h host (refused_connect s.ctx.req q s) ≡ some ((some a, host'), u)
      → decide (guarded_connect [] (basic_connect decode realm f) ∷ h ∷ []) todo host s
        ≡ some ((a, host'), u)
  unfolding decide
  unauthorized_overruled h todo a host host' q s u here bad decides =
      decide-last (guarded_connect [] (basic_connect decode realm f) ∷ []) [] h todo
        (plain_action connect_reject) a host host host' s (refused_connect s.ctx.req q s) u u
        (rw (connect_refuses host q s here bad, ◌>>=◌) refl) decides refl
