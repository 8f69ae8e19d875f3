-- ===== src/Goproxy/Connect.antt =====
-- https.go: a CONNECT request, up to the loops that serve the connection.
pub mod Mitm
pub mod Tls
use Prim.Native.Char.{code}
use Prim.Native.String
use Prim.Native.String.{String}
use text.Mathlib.Text.{◌==◌}
use n6bagent.Prelude
use n6bagent.Prelude.{
  ℕ, Bool, true, false, ◌&&◌, ◌||◌, Option, none, some, List, [], ◌∷◌, leb, if◌then◌else◌,
}
use n6bagent.Goproxy.Http.{Result, ok, err}
use n6bagent.Goproxy.State.{
  ◌>>=◌, ◌>>◌, M, return, panic, world, emit, load_resp, writes, writes_response, starts_copy,
  copies, closes, HttpsHandler, ConnectAction, connect_accept, Dial, Proxy,
}

unfoldable pub strip_port : String → String
strip_port String.[] = String.[]
strip_port (String.◌∷◌ c s) =
    let rest = strip_port s in if Prelude.◌==◌ (code c) b':' then String.[] else String.◌∷◌ c rest

abbrev pub all_digits : String → Bool
all_digits String.[] = true
all_digits (String.◌∷◌ c s) = leb b'0' (code c) && leb (code c) b'9' && all_digits s

-- The regular expression `:\d+$`.
unfoldable pub has_port : String → Bool
has_port String.[] = false
has_port (String.◌∷◌ c s) = Prelude.◌==◌ (code c) b':' && not_empty s && all_digits s || has_port s
  where
    not_empty : String → Bool
    not_empty String.[] = false
    not_empty (String.◌∷◌ c s) = true

abbrev pub or_dial : Option Dial → Dial → Dial
or_dial none d = d
or_dial (some f) d = f

-- `net_dial` is net.Dial.
unfoldable pub dial : Dial → Proxy → Dial
dial net_dial p = or_dial p.tr_dial net_dial

unfoldable pub connect_dial : Dial → Proxy → Dial
unfolding dial
connect_dial net_dial p = or_dial p.connect_dial (dial net_dial p)

-- The handlers in turn: one that gives an action decides, and also on the host that the next ones
-- see.
unfoldable pub decide : List HttpsHandler → ConnectAction → String → M (ConnectAction × String)
decide [] todo host = return (todo, host)
decide (h ∷ hs) todo host = do
  x ← h host
  elim x.0 [ some newtodo ↦ decide hs newtodo x.1 | none ↦ decide hs todo host ]

abbrev pub ok_connect : ConnectAction
ok_connect = record { action = connect_accept; tls_config = none; ca = none; hijack = none }

-- httpError; errors of its writes are only logged.
unfoldable pub http_error : ℕ → M (Unit {0})
http_error w = emit (writes w "HTTP/1.1 502 Bad Gateway\r\n\r\n") >> emit (closes w)

-- copyAndClose, the body of a goroutine that a tunnel starts.
unfoldable pub copy_and_close : ℕ → ℕ → M (Unit {0})
copy_and_close w r = emit (copies w r) >> emit (closes w)

abbrev pub established : String
established = "HTTP/1.0 200 OK\r\n\r\n"

abbrev pub with_port : String → String
with_port host = if has_port host then host else String.◌++◌ host ":80"

abbrev pub tunnel : ℕ → Result ℕ → M (Unit {0})
tunnel client (err e) = http_error client
tunnel client (ok target) = do
  emit (writes client established)
  emit (starts_copy target client)
  emit (starts_copy client target)

unfoldable pub accept_connect : Dial → Proxy → ℕ → String → M (Unit {0})
unfolding http_error has_port
accept_connect net_dial p client host = do
  target ← connect_dial net_dial p "tcp" (with_port host)
  tunnel client target

abbrev pub call_hijack : Option (ℕ → ℕ → M (Unit {0})) → ℕ → ℕ → M (Unit {0})
call_hijack none r client = panic
call_hijack (some f) r client = f r client

abbrev pub reject_with : Option ℕ → ℕ → M (Unit {0})
reject_with none client = return tt
reject_with (some x) client = do a ← load_resp x; emit (writes_response client a)

unfoldable pub reject_connect : ℕ → M (Unit {0})
reject_connect client = do s ← world; reject_with s.ctx.resp client; emit (closes client)
