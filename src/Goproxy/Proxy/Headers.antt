-- ===== src/Goproxy/Proxy/Headers.antt =====
-- What copyHeaders leaves in the header of the client.
use Prim.Native.String.{String}
use text.Mathlib.Text.{◌==◌}
use text.Mathlib.TextEquality.{eq_iff}
use n6bagent.Prelude.{
  ◌≡◌, refl, ◌∙◌, ap, List, [], ◌∷◌, ◌++◌, append_assoc, append-nil, if◌then◌else◌, arith,
  Bool-cases, inl, inr,
}
use n6bagent.Goproxy.Http.{Header, values, del, add}
use n6bagent.Goproxy.Http.Headers.{values-del, values-add}
use n6bagent.Goproxy.Proxy.{del_all, add_all, add_headers, copy_headers}

-- A map has a key at most once.
abbrev pub NodupKeys : Header → Type 0
NodupKeys [] = Unit {0}
NodupKeys ((k, vs) ∷ h) = (values k h ≡ []) × NodupKeys h

-- Nothing is left of the keys that are deleted, nor of others.
values-del_all-nil :
    (ks : Header) (j : String) (h : Header) → values j h ≡ [] → values j (del_all ks h) ≡ []
unfolding del_all
values-del_all-nil [] j h e = e
values-del_all-nil ((k, vs) ∷ ks) j h e =
    values-del_all-nil ks j (del k h) (ground (arith, values-del k j h))

values-del_all :
    (ks : Header) (j : String) (h : Header)
    → (values j ks ≡ [] → values j h ≡ [])
    → values j (del_all ks h) ≡ []
unfolding del_all values
values-del_all [] j h cover = cover refl
values-del_all ((k, vs) ∷ ks) j h cover = elim (Bool-cases (k == j)) [
  | inl same ↦ values-del_all-nil ks j (del k h) (ground (arith, same, values-del k j h))
  | inr other ↦
      values-del_all ks j (del k h)
        (λ e. ground (arith, other, values-del k j h, cover (rw other e)))
]

values-add_all :
    (k j : String) (vs : List String) (h : Header)
    → values j (add_all k vs h) ≡ (if k == j then values j h ++ vs else values j h)
unfolding add_all
values-add_all k j [] h = ground (arith, append-nil (values j h))
values-add_all k j (v ∷ vs) h = ground (
  arith,
  values-add_all k j vs (add k v h),
  values-add k j v h,
  append_assoc (values j h) (v ∷ []) vs,
)

values-add_headers :
    (src : Header) (j : String) (h : Header)
    → NodupKeys src
    → values j (add_headers src h) ≡ values j h ++ values j src
unfolding add_headers values
values-add_headers [] j h nodup = ground (arith, append-nil (values j h))
values-add_headers ((k, vs) ∷ src) j h (alone, nodup) = ground (
  arith,
  eq_iff k j,
  alone,
  values-add_headers src j (add_all k vs h) nodup,
  values-add_all k j vs h,
  append-nil (values j h ++ vs),
)

-- Whatever was in the header of the client, it has then exactly the values of the response's.
pub values-copy_headers :
    (dst src : Header) (k : String) → NodupKeys src → values k (copy_headers dst src) ≡ values k src
unfolding copy_headers
values-copy_headers dst src k nodup =
    values-add_headers src k (del_all dst dst) nodup
    ∙ ap (λ (vs : List String). vs ++ values k src) (values-del_all dst k dst (λ e. e))
