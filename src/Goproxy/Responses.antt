-- ===== src/Goproxy/Responses.antt =====
-- responses.go: responses that a handler makes. A text of Go is its bytes.
use Prim.Native.String.{String}
use n6bagent.Prelude.{ℕ, none, some, List, [], length}
use n6bagent.Goproxy.Http.{Bytes, add, Response}
use n6bagent.Goproxy.State.{◌>>=◌, M, load_req, new_resp, new_body}

abbrev pub made : ℕ → List String → String → ℕ → ℕ → Bytes → Response
made r transfer_encoding content_type status n body = record {
  status = "";
  status_code = status;
  header = add "Content-Type" content_type [];
  body = record { ident = n; content = body; broken = none };
  request = some r;
  transfer_encoding = transfer_encoding;
  content_length = length body;
}

-- NewResponse.
unfoldable pub new_response : ℕ → String → ℕ → Bytes → M ℕ
new_response r content_type status body = do
  q ← load_req r
  n ← new_body
  new_resp (made r q.transfer_encoding content_type status n body)

-- TextResponse, with ContentTypeText and http.StatusAccepted.
unfoldable pub text_response : ℕ → Bytes → M ℕ
unfolding new_response
text_response r text = new_response r "text/plain" 202 text
