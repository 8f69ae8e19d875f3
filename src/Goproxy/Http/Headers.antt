-- ===== src/Goproxy/Http/Headers.antt =====
-- The laws of headers.
use Prim.Native.String.{String}
use text.Mathlib.Text.{◌==◌}
use text.Mathlib.TextEquality.{eq_iff}
use n6bagent.Prelude.{◌≡◌, [], ◌∷◌, ◌++◌, if◌then◌else◌, arith}
use n6bagent.Goproxy.Http.{Header, values, del, set, add}

pub values-del :
    (k j : String) (h : Header) → values j (del k h) ≡ (if k == j then [] else values j h)
unfolding values del
values-del k j [] = ground arith
values-del k j ((i, vs) ∷ h) = ground (arith, eq_iff k j, eq_iff i k, eq_iff i j, values-del k j h)

pub values-set :
    (k j v : String) (h : Header) → values j (set k v h) ≡ (if k == j then v ∷ [] else values j h)
unfolding values set
values-set k j v h = ground (arith, values-del k j h)

pub values-add :
    (k j v : String) (h : Header)
    → values j (add k v h) ≡ (if k == j then values j h ++ v ∷ [] else values j h)
unfolding values add
values-add k j v [] = ground arith
values-add k j v ((i, vs) ∷ h) =
    ground (arith, eq_iff k j, eq_iff i k, eq_iff i j, values-add k j v h)
