-- ===== src/Goproxy/Http.antt =====
-- The parts of net/http and net/url that goproxy works on: headers, requests and responses.
--
-- A header's methods bring keys to their canonical form, and so do the readers of net/http; the
-- keys of the model are in this form.
pub mod Headers
use Prim.Native.String.{String}
use text.Mathlib.Text.{◌==◌}
use n6bagent.Prelude.{zero, suc, ℕ, Bool, Option, List, [], ◌∷◌, ◌++◌, if◌then◌else◌}

abbrev pub Bytes : Type 0
Bytes = List ℕ

abbrev pub Header : Type 0
Header = List (String × List String)

unfoldable pub values : String → Header → List String
values k [] = []
values k ((j, vs) ∷ h) = if j == k then vs else values k h

-- `Get`: the first value, or the empty text.
abbrev pub first : List String → String
first [] = ""
first (v ∷ vs) = v

unfoldable pub get : String → Header → String
unfolding values
get k h = first (values k h)

unfoldable pub del : String → Header → Header
del k [] = []
del k ((j, vs) ∷ h) = let rest = del k h in if j == k then rest else (j, vs) ∷ rest

unfoldable pub set : String → String → Header → Header
unfolding del
set k v h = (k, v ∷ []) ∷ del k h

unfoldable pub add : String → String → Header → Header
add k v [] = (k, v ∷ []) ∷ []
add k v ((j, vs) ∷ h) =
    let rest = add k v h in if j == k then (j, vs ++ v ∷ []) ∷ h else (j, vs) ∷ rest

pub record Url : Type 0 where
  pub scheme : String
  pub host : String
  pub path : String

-- The address is a pointer; `url_nil` says that it is nil.
pub record Request : Type 0 where
  pub method : String
  pub url : Url
  pub url_nil : Bool
  pub host : String
  pub remote_addr : String
  pub request_uri : String
  pub header : Header
  pub transfer_encoding : List String

-- An error by its text. `eof` is io.EOF.
pub data Error : Type 0 where
  eof short_write : Error
  failure : String → Error

-- A body is told from another by its number: bodies are compared as pointers. The error is the
-- one at the end of its bytes, if it is not io.EOF.
pub record Body : Type 0 where
  pub ident : ℕ
  pub content : Bytes
  pub broken : Option Error

pub record Response : Type 0 where
  pub status : String
  pub status_code : ℕ
  pub header : Header
  pub body : Body
  pub request : Option ℕ
  pub transfer_encoding : List String
  pub content_length : ℕ

-- Go's pair of a result and an error.
pub data Result {ℓ} (A : Type ℓ) : Type ℓ where
  ok : A → Result A
  err : Error → Result A

-- `make([]byte, n)`
abbrev pub zeros : ℕ → Bytes
zeros zero = []
zeros (suc n) = 0 ∷ zeros n
