-- ===== src/Examples/Guards.antt =====
-- A proxy that wants the name and password of one user.
use Prim.Native.String.{String}
use text.Mathlib.Text.{◌==◌}
use n6bagent.Prelude.{◌≡◌, refl, ◌&&◌, some, [], ◌∷◌, Option}
use n6bagent.Goproxy.Http.{Header, values, get, ok}
use n6bagent.Goproxy.State.{World, Proxy, return, writes_response, closes, connect_mitm}
use n6bagent.Goproxy.Proxy.{serve_plain}
use n6bagent.Goproxy.Proxy.Serving.{begun, answered}
use n6bagent.Goproxy.Dispatcher.{
  guarded_connect, do_request, handle_connect, always_mitm, plain_action,
}
use n6bagent.Goproxy.Dialer.{plain_proxy}
use n6bagent.Goproxy.Connect.{decide, ok_connect}
use n6bagent.Goproxy.Serve.{serve_http}
use n6bagent.Goproxy.Auth.{
  Check, is_authorized, split_two, unauthorized, basic_connect, proxy_basic,
}
use n6bagent.Goproxy.Auth.Guarding.{
  refused_connect, unauthorized_plain, unauthorized_connect, unauthorized_overruled,
}
use n6bagent.Examples.Proxies.{get_page, connect_host, online, env, world_of, is_http}

-- Credentials that stand for themselves.
abbrev decode : String → Option String
decode s = some s

abbrev only_user : Check
only_user user passwd = user == "user" && passwd == "secret"

guarding : Proxy
unfolding proxy_basic do_request handle_connect
guarding = proxy_basic decode "proxy" only_user plain_proxy

unauthorized_plain_example :
    (h : Header) × (u : World) × (serve_plain online guarding 0 (world_of get_page) ≡ some (tt, u))
    × (u.effects ≡ answered h (unauthorized 0 "proxy" 4))
    × (values "Proxy-Authenticate" h ≡ "Basic realm=proxy" ∷ [])
unfolding guarding proxy_basic do_request handle_connect is_authorized split_two get values
unauthorized_plain_example =
    unauthorized_plain decode "proxy" only_user online guarding [] 0 get_page (world_of get_page)
      refl refl refl is_http refl

unauthorized_connect_example :
    (u : World) × (serve_http env guarding 0 (world_of connect_host) ≡ some (tt, u))
    × (u.effects ≡ writes_response 7 (unauthorized 0 "proxy" 4) ∷ closes 7 ∷ [])
unfolding guarding proxy_basic do_request handle_connect is_authorized split_two get values
unauthorized_connect_example =
    let s = world_of connect_host in
    unauthorized_connect decode "proxy" only_user env guarding 0 7 connect_host s (begun 0 s)
      (return (ok 7)) refl refl refl refl refl refl refl refl

unauthorized_overruled_example :
    decide
      (guarded_connect [] (basic_connect decode "proxy" only_user) ∷ always_mitm ∷ [])
      ok_connect
      "host"
      (world_of connect_host)
    ≡ some (
      (plain_action connect_mitm, "host"),
      refused_connect decode "proxy" only_user 0 connect_host (world_of connect_host),
    )
unfolding is_authorized split_two get values always_mitm
unauthorized_overruled_example =
    let s = world_of connect_host in
    unauthorized_overruled decode "proxy" only_user always_mitm ok_connect
      (plain_action connect_mitm) "host" "host" connect_host s
      (refused_connect decode "proxy" only_user 0 connect_host s) refl refl refl
