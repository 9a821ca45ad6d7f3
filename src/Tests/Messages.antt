-- ===== src/Tests/Messages.antt =====
-- Requests and responses of lib/include/http.hpp.
use coroutine_http_server.Prelude.{
  false, [], ◌∷◌, ◌++◌, ◌≡◌, refl, Bytes, codes, find, bytes_eq, ends_with, replicate,
}
use coroutine_http_server.Prelude.Result.{Result}
use coroutine_http_server.Prelude.Decimal.{ℤ, pos}
use coroutine_http_server.Utility.Compare.{equal, less}
use coroutine_http_server.Utility.Ctype.{tolower, isspace, isalnum}
use coroutine_http_server.Io.Outcome.{done}
use coroutine_http_server.Io.OStream.{OStream, ostream}
use coroutine_http_server.Http.Method.{http_method, method_eq}
use coroutine_http_server.Http.Stdio.{Stdio, fgets, c_string}
use coroutine_http_server.Http.Headers.{Headers, find_header, insert_or_assign}
use coroutine_http_server.Http.HeaderBody.{is_name, skip_spaces, crlf, lift}
use coroutine_http_server.Http.Request.{Request, cleared, request_line}
use coroutine_http_server.Http.Request.PlainLines.{
  next_line, ensure_and_remove_crlf, plain_header, plain_body,
}
use coroutine_http_server.Http.Request.Plain.{plain_headers, read_from_stdio}
use coroutine_http_server.Http.Request.Plain.Laws.{read_from_stdio-Ends}
use coroutine_http_server.Http.Response.{Response}

abbrev headers : Headers
headers = (codes "Host", codes "a") ∷ []

abbrev request : Request
request = record { method = codes "GET"; uri = codes "/a"; headers = headers; body = [] }

-- A table with one reason phrase.
abbrev reason : ℤ → Bytes
reason _ = codes "OK"

abbrev response : Response
response = record { status = pos 200; headers = headers; body = codes "body" }

abbrev stdio : Stdio
stdio = record {
  unread = codes "GET /a HTTP/1.1" ++ (crlf ++ (codes "Host: a" ++ (crlf ++ crlf)));
  has_error = false;
}

read_from_stdio-Ends_example :
    (r : Result (Stdio × Request)) × (read_from_stdio cleared stdio ≡ lift r)
read_from_stdio-Ends_example = read_from_stdio-Ends cleared stdio

read_lem : read_from_stdio cleared stdio ≡ done (record { unread = []; has_error = false }, request)
unfolding read_from_stdio request_line fgets find_header less equal http_method next_line
    ensure_and_remove_crlf c_string ends_with bytes_eq method_eq skip_spaces isspace tolower
    plain_headers plain_header find is_name isalnum plain_body insert_or_assign
read_lem = refl

abbrev counted : Headers
counted = (codes "content-length", codes "2") ∷ []

abbrev writer : OStream
writer = ostream 4 []

abbrev writer' : OStream
writer' = record { buffer = replicate 4 0; capacity = 4; end = 2; output = []; sent = [] }
