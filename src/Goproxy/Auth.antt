-- ===== src/Goproxy/Auth.antt =====
-- ext/auth/basic.go: a proxy that wants a name and a password with every request.
pub mod Guarding
use Prim.Native.Char.{code}
use Prim.Native.String
use Prim.Native.String.{String}
use text.Mathlib.Text.{◌==◌}
use n6bagent.Prelude
use n6bagent.Prelude.{ℕ, Bool, false, Option, none, some, [], ◌∷◌, length, if◌then◌else◌}
use n6bagent.Goproxy.Http.{Bytes, get, del, Request, Response}
use n6bagent.Goproxy.State.{
  ◌>>=◌, ◌>>◌, M, return, world, modify, load_req, save_req, new_resp, new_body, ReqHandler,
  HttpsHandler, connect_reject, Proxy,
}
use n6bagent.Goproxy.Connect.{ok_connect}
use n6bagent.Goproxy.Dispatcher.{do_request, handle_connect, plain_action}

-- "407 Proxy Authentication Required"
abbrev pub unauthorized_msg : Bytes
unauthorized_msg =
    52 ∷ 48 ∷ 55 ∷ 32 ∷ 80 ∷ 114 ∷ 111 ∷ 120 ∷ 121 ∷ 32 ∷ 65 ∷ 117 ∷ 116 ∷ 104 ∷ 101 ∷ 110 ∷ 116
    ∷ 105 ∷ 99 ∷ 97 ∷ 116 ∷ 105 ∷ 111 ∷ 110 ∷ 32 ∷ 82 ∷ 101 ∷ 113 ∷ 117 ∷ 105 ∷ 114 ∷ 101 ∷ 100 ∷ []

abbrev pub unauthorized : ℕ → String → ℕ → Response
unauthorized r realm n = record {
  status = "";
  status_code = 407;
  header = ("Proxy-Authenticate", String.◌++◌ "Basic realm=" realm ∷ []) ∷ [];
  body = record { ident = n; content = unauthorized_msg; broken = none };
  request = some r;
  transfer_encoding = [];
  content_length = length unauthorized_msg;
}

-- BasicUnauthorized.
unfoldable pub basic_unauthorized : ℕ → String → M ℕ
basic_unauthorized r realm = do n ← new_body; new_resp (unauthorized r realm n)

abbrev pub proxy_authorization_header : String
proxy_authorization_header = "Proxy-Authorization"

abbrev pub and_first : {A : Type 0} → (A → A) → Option (A × A) → Option (A × A)
and_first f none = none
and_first f (some (a, b)) = some (f a, b)

-- `strings.SplitN(s, sep, 2)` for one character, where it has two parts.
unfoldable pub split_two : ℕ → String → Option (String × String)
split_two sep String.[] = none
split_two sep (String.◌∷◌ c s) =
    let rest = and_first (String.◌∷◌ c) (split_two sep s) in
    if Prelude.◌==◌ (code c) sep then some (String.[], s) else rest

abbrev pub Check : Type 0
Check = String → String → Bool

abbrev pub check_pair : Check → Option (String × String) → Bool
check_pair f none = false
check_pair f (some (user, passwd)) = f user passwd

-- `decode` is base64.StdEncoding.DecodeString.
abbrev pub check_decoded : Check → Option String → Bool
check_decoded f none = false
check_decoded f (some userpass) = check_pair f (split_two b':' userpass)

abbrev pub check_header : (String → Option String) → Check → Option (String × String) → Bool
check_header decode f none = false
check_header decode f (some (scheme, credentials)) =
    if scheme == "Basic" then check_decoded f (decode credentials) else false

-- What auth returns of a request.
unfoldable pub is_authorized : (String → Option String) → Check → Request → Bool
unfolding get split_two
is_authorized decode f q =
    check_header decode f (split_two b' ' (get proxy_authorization_header q.header))

-- The request after auth.
abbrev pub without_authorization : Request → Request
without_authorization q = record q { header = del proxy_authorization_header q.header }

module _ (decode : String → Option String) (realm : String) (f : Check) where
  unfoldable pub auth : ℕ → M Bool
  auth r = do
    q ← load_req r
    save_req r (without_authorization q)
    return (is_authorized decode f q)

  unfoldable pub basic : ReqHandler
  basic r = do
    b ← auth r
    if b then return (some r, none) else (do x ← basic_unauthorized r realm; return (none, some x))

  unfoldable pub basic_connect : HttpsHandler
  basic_connect host = do
    s ← world
    b ← auth s.ctx.req
    if b then return (some ok_connect, host) else (do
      x ← basic_unauthorized s.ctx.req realm
      modify λ t. record t { ctx = record t.ctx { resp = some x } }
      return (some (plain_action connect_reject), host))

  unfoldable pub proxy_basic : Proxy → Proxy
  unfolding do_request handle_connect
  proxy_basic p = handle_connect [] basic_connect (do_request [] basic p)
