-- ===== src/Goproxy/Proxy/Filters.antt =====
-- What a chain of request handlers makes of a request.
use n6bagent.Prelude.{
  ℕ, ◌≡◌, Option, none, some, List, [], ◌∷◌, ◌++◌, map, get_elem?, get_elem?-append,
  get_elem?-append_length, length, arith,
}
use n6bagent.Goproxy.Http.{Request}
use n6bagent.Goproxy.State.{World, ◌>>=◌, return, load_req, new_req, ReqHandler}
use n6bagent.Goproxy.Proxy.{filter_loop}

-- Each of the handlers gives no response, from one world to another.
abbrev pub Pass : List ReqHandler → ℕ → World → World → Type 0
Pass [] r s t = s ≡ t
Pass (h ∷ hs) r s t = (q : Option ℕ) × (u : World) × (h r s ≡ some ((q, none), u)) × Pass hs r u t

-- Where the handlers before it let the request pass, a handler that gives a response ends the
-- filter with what it returns, and none of the handlers behind it is called.
pub filter_loop-response :
    (hs more : List ReqHandler) (h : ReqHandler) (r : ℕ) (req q : Option ℕ) (x : ℕ) (s t u : World)
    → Pass hs r s t
    → h r t ≡ some ((q, some x), u)
    → filter_loop (hs ++ h ∷ more) r req s ≡ some ((q, some x), u)
unfolding filter_loop
filter_loop-response [] more h r req q x s t u same stop = rw same (rw (stop, ◌>>=◌))
filter_loop-response (g ∷ hs) more h r req q x s t u (p, v, e, pass) stop =
    rw (e, ◌>>=◌) (filter_loop-response hs more h r p q x v t u pass stop)

-- A handler that makes a new request of the one that it is given.
abbrev pub rewrites : (Request → Request) → ReqHandler
rewrites f r = do q ← load_req r; x ← new_req (f q); return (some x, none)

-- Every handler is given the request of the client, not what the handler before it has returned:
-- of several handlers that rewrite the request, all but the last do so in vain.
pub filter_loop-last :
    (fs : List (Request → Request)) (g : Request → Request) (r : ℕ) (req : Option ℕ) (q : Request)
    (s : World)
    → get_elem? s.requests r ≡ some q
    → (x : ℕ) × (t : World) × (filter_loop (map rewrites fs ++ rewrites g ∷ []) r req s
        ≡ some ((some x, none), t))
      × (get_elem? t.requests x ≡ some (g q))
unfolding filter_loop
filter_loop-last [] g r req q s here = (
  length s.requests,
  record s { requests = s.requests ++ g q ∷ [] },
  ground (arith, here),
  get_elem?-append_length s.requests (g q),
)
filter_loop-last (f ∷ fs) g r req q s here =
    let s' : World = record s { requests = s.requests ++ f q ∷ [] } in
    let (x, t, runs, last) =
      filter_loop-last fs g r (some (length s.requests)) q s'
        (get_elem?-append s.requests (f q ∷ []) r q here) in
    (x, t, rw (here, load_req, ◌>>=◌) runs, last)
