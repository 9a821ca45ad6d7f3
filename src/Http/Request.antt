-- ===== src/Http/Request.antt =====
-- `HTTPRequest` of lib/include/http.hpp: the reader and the writer over `AsyncFileBuffer`.
pub mod Line
pub mod PlainLines
pub mod Plain
pub mod Received
use coroutine_http_server.Prelude.{
  ℕ, ◌+◌, Bool, true, false, not, List, [], ◌∷◌, ◌++◌, if◌then◌else◌, Bytes, codes, is_empty,
  ends_with,
}
use coroutine_http_server.Prelude.Result.{Result, ok, throws, runtime_error}
use coroutine_http_server.Utility.Ctype.{isspace}
use coroutine_http_server.Http.Method.{http_method, method_eq, invalid}
use coroutine_http_server.Http.Uri.{ParsedUri, from}
use coroutine_http_server.Http.Headers.{Headers}
use coroutine_http_server.Http.HeaderBody.{Buffer, skip_spaces, trim_back, lift, crlf, write_to}
use coroutine_http_server.Http.HeaderBody
use coroutine_http_server.Io.Outcome
use coroutine_http_server.Io.Outcome.{Outcome, ◌>>=◌}
use coroutine_http_server.Io.IStream.{getline}
use coroutine_http_server.Io.OStream.Session.{Call, text}

pub record Request : Type 0 where
  pub method : Bytes
  pub uri : Bytes
  pub headers : Headers
  pub body : Bytes

-- `clear()`, from any request
abbrev pub cleared : Request
cleared = record { method = []; uri = []; headers = []; body = [] }

unfoldable pub parse_uri : Request → ParsedUri
parse_uri req = from req.uri

-- The bytes in front of the first space, and the rest.
unfoldable pub word : Bytes → Bytes × Bytes
word [] = ([], [])
word (c ∷ s) = let (w, rest) = word s in if isspace c then ([], c ∷ s) else (c ∷ w, rest)

-- `ss >> target`: a stream with no word left leaves the target as it is.
unfoldable pub extract : Bytes → Bytes → Bytes × Bytes
unfolding word
extract target ss = let s = skip_spaces ss in if is_empty s then (target, []) else word s

abbrev pub http_1_1 : Bytes
http_1_1 = codes "HTTP/1.1"

-- The checks of the request line, the same in the three readers: the method and the target, over
-- what they held.
unfoldable pub request_line : Bytes → Bytes → Bytes → Result (Bytes × Bytes)
unfolding extract
request_line method uri line =
    if not (ends_with line http_1_1)
    then throws (runtime_error "invalid request: cannot find \"HTTP/1.1\"\n")
    else (let (method', ss) = extract method line in
        let (uri', _) = extract uri ss in
        if method_eq (http_method method') invalid
        then throws (runtime_error "invalid http method: ")
        else ok (method', uri'))

-- `read_from` over `AsyncFileBuffer`
unfoldable pub read_from : Buffer → Outcome (Buffer × Request)
read_from b = do
  (line, f) ← getline crlf b.reader
  (method, uri) ← lift (request_line [] [] (trim_back line))
  (b', headers, body) ← HeaderBody.read_from (record { reader = f; writer = b.writer })
  Outcome.done (b', record { method = method; uri = uri; headers = headers; body = body })

-- `method.empty() ? "<empty>" : method`
abbrev pub or_empty : Bytes → Bytes
or_empty [] = codes "<empty>"
or_empty (c ∷ s) = c ∷ s

-- The first line that `write_to` writes.
unfoldable pub line_of : Request → Bytes → Bytes
line_of req line_start =
    ((((line_start ++ or_empty req.method) ++ codes " ") ++ or_empty req.uri) ++ codes " HTTP/1.1")
    ++ crlf

-- `write_to` over `AsyncFileBuffer`: the calls that it makes, in order.
unfoldable pub write_request : Request → Bytes → List Call
unfolding line_of
write_request req line_start =
    text (line_of req line_start) ∷ write_to req.headers req.body line_start
