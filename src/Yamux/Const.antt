-- ===== src/Yamux/Const.antt =====
-- const.go and util.go: the errors, the frame types and flags, and small helpers.
use n6bagent.Prelude.{ℕ, ltb, if◌then◌else◌, Bool, true, bit_and, ◌==◌}

-- The error values, those that handleGoAway builds, and those of the underlying connection: the
-- end of the input (`eof`, `unexpected_eof`) and any other error, by a number (`io_error`).
pub data Error : Type 0 where
  invalid_version invalid_msg_type session_shutdown streams_exhausted : Error
  duplicate_stream recv_window_exceeded timeout stream_closed : Error
  unexpected_flag remote_go_away connection_reset : Error
  go_away_protocol go_away_internal go_away_unexpected : Error
  bad_backlog bad_interval bad_window : Error
  eof unexpected_eof : Error
  io_error : ℕ → Error

abbrev pub proto_version : ℕ
proto_version = 0

abbrev pub type_data : ℕ
type_data = 0

abbrev pub type_window_update : ℕ
type_window_update = 1

abbrev pub type_ping : ℕ
type_ping = 2

abbrev pub type_go_away : ℕ
type_go_away = 3

abbrev pub flag_syn : ℕ
flag_syn = 1

abbrev pub flag_ack : ℕ
flag_ack = 2

abbrev pub flag_fin : ℕ
flag_fin = 4

abbrev pub flag_rst : ℕ
flag_rst = 8

abbrev pub initial_stream_window : ℕ
initial_stream_window = 262144

abbrev pub go_away_normal : ℕ
go_away_normal = 0

abbrev pub go_away_proto_err : ℕ
go_away_proto_err = 1

abbrev pub go_away_internal_err : ℕ
go_away_internal_err = 2

abbrev pub header_size : ℕ
header_size = 12

-- `flags&flag == flag`
abbrev pub has_flag : ℕ → ℕ → Bool
has_flag flags flag = bit_and flags flag == flag

-- A channel of capacity one that only signals: whether a signal is waiting in it. A send that
-- finds the channel full is dropped, so the signal is there afterwards either way.
abbrev pub async_notify : Bool → Bool
async_notify pending = true

abbrev pub min : ℕ → ℕ → ℕ
min a b = if ltb a b then a else b
