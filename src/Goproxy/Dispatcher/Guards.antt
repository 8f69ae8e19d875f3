-- ===== src/Goproxy/Dispatcher/Guards.antt =====
-- What a handler does that is registered under conditions.
use Prim.Native.String.{String}
use n6bagent.Prelude.{
  ℕ, ◌≡◌, refl, Bool, true, ◌&&◌, none, some, List, [], ◌∷◌, map, get_elem?, if◌then◌else◌, arith,
  Bool-cases, inl, inr,
}
use n6bagent.Goproxy.Http.{Request}
use n6bagent.Goproxy.State.{World, ReqHandler, HttpsHandler}
use n6bagent.Goproxy.Dispatcher.{tests, all_hold, on_request, guarded, guarded_connect}

abbrev pub all : List (Request → Bool) → Request → Bool
all [] q = true
all (f ∷ fs) q = f q && all fs q

all_hold-all :
    (fs : List (Request → Bool)) (r : ℕ) (s : World) (q : Request)
    → get_elem? s.requests r ≡ some q
    → all_hold (on_request (map tests fs) r) s ≡ some (all fs q, s)
unfolding all_hold
all_hold-all [] r s q here = refl
all_hold-all (f ∷ fs) r s q here = elim (Bool-cases (f q)) [
  | inl holds ↦ ground (arith, here, holds, all_hold-all fs r s q here)
  | inr fails ↦ ground (arith, here, fails)
]

module _ (fs : List (Request → Bool)) (r : ℕ) (s : World) (q : Request)
    (here : get_elem? s.requests r ≡ some q) where
  -- A handler under conditions on the request is called if all of them hold, and otherwise lets the
  -- request pass and changes nothing.
  pub guarded_lem :
      (h : ReqHandler)
      → guarded (map tests fs) h r s ≡ (if all fs q then h r s else some ((some r, none), s))
  unfolding guarded
  guarded_lem h = elim (Bool-cases (all fs q)) [
    | inl holds ↦ ground (arith, holds, all_hold-all fs r s q here)
    | inr fails ↦ ground (arith, fails, all_hold-all fs r s q here)
  ]

  -- A handler of CONNECT requests under conditions on the request of the context is asked if all of
  -- them hold, and otherwise leaves the decision as it is.
  pub guarded_connect_lem :
      (h : HttpsHandler) (host : String)
      → s.ctx.req ≡ r
      → guarded_connect (map tests fs) h host s
        ≡ (if all fs q then h host s else some ((none, ""), s))
  unfolding guarded_connect
  guarded_connect_lem h host e = elim (Bool-cases (all fs q)) [
    | inl holds ↦ rw e (ground (arith, holds, all_hold-all fs r s q here))
    | inr fails ↦ rw e (ground (arith, fails, all_hold-all fs r s q here))
  ]
