-- ===== src/Websocket/Base.antt =====
-- websocket.go and hybi.go: the errors, the frame types and the status codes.
use n6bagent.Prelude.{ℕ}

-- The package's errors, and those of the connection and of random numbers below it, by a number.
pub data Error : Type 0 where
  bad_masking_key not_implemented : Error
  bad_request_method not_web_socket challenge_response bad_web_socket_version : Error
  bad_web_socket_protocol null_origin bad_location : Error
  bad_protocol_version bad_scheme bad_status bad_upgrade unsupported_extensions : Error
  bad_web_socket_origin bad_web_socket_location : Error
  not_supported err_set_deadline : Error
  eof unexpected_eof : Error
  io_error : ℕ → Error

abbrev pub continuation_frame : ℕ
continuation_frame = 0

abbrev pub text_frame : ℕ
text_frame = 1

abbrev pub binary_frame : ℕ
binary_frame = 2

abbrev pub close_frame : ℕ
close_frame = 8

abbrev pub ping_frame : ℕ
ping_frame = 9

abbrev pub pong_frame : ℕ
pong_frame = 10

abbrev pub close_status_normal : ℕ
close_status_normal = 1000

abbrev pub close_status_protocol_error : ℕ
close_status_protocol_error = 1002

abbrev pub max_control_frame_payload_length : ℕ
max_control_frame_payload_length = 125
