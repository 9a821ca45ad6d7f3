-- ===== src/Http/Request/Plain.antt =====
-- `HTTPRequest::read_from` over a `FILE *`, of lib/include/http.hpp.
pub mod Laws
use coroutine_http_server.Prelude.{
  ℕ, zero, suc, Bool, true, false, List, [], ◌∷◌, Bytes, is_empty, length,
}
use coroutine_http_server.Prelude.Result.{runtime_error, eof_exception}
use coroutine_http_server.Io.Outcome
use coroutine_http_server.Io.Outcome.{Outcome, ◌>>=◌}
use coroutine_http_server.Http.Stdio.{Stdio}
use coroutine_http_server.Http.Headers.{Headers, insert_or_assign}
use coroutine_http_server.Http.HeaderBody.{lift}
use coroutine_http_server.Http.Request.{Request, request_line}
use coroutine_http_server.Http.Request.PlainLines.{next_line, plain_header, plain_body}

-- The loop over the header lines; the fuel counts them.
unfoldable pub plain_headers : ℕ → Stdio → Headers → Outcome (Stdio × Headers)
plain_headers zero f headers = Outcome.exhausted
plain_headers (suc fuel) f headers = do
  (s, f') ← lift (next_line (runtime_error "The stream is closed?") f)
  elim (is_empty s) [
    | true ↦ Outcome.done (f', headers)
    | false ↦ do
      (name, value) ← lift (plain_header s)
      plain_headers fuel f' (insert_or_assign name value headers)
  ]

-- `read_from(FILE *f)`: it does not clear the request before.
unfoldable pub read_from_stdio : Request → Stdio → Outcome (Stdio × Request)
read_from_stdio req f = do
  (line, f') ← lift (next_line (eof_exception "The stream is closed?\n") f)
  (method, uri) ← lift (request_line req.method req.uri line)
  (f'', headers) ← plain_headers (suc (length f'.unread)) f' req.headers
  (g, body) ← lift (plain_body f'' headers req.body)
  Outcome.done (g, record { method = method; uri = uri; headers = headers; body = body })
