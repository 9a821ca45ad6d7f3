-- ===== src/Http/Response.antt =====
-- `HTTPResponse` of lib/include/http.hpp over `AsyncFileBuffer`, and `to_string`. The reason phrases
-- come from a library, and are a parameter.
pub mod Written
use coroutine_http_server.Prelude.{
  ℕ, zero, suc, Bool, not, List, [], ◌∷◌, ◌++◌, if◌then◌else◌, Bytes, codes, starts_with, drop,
}
use coroutine_http_server.Prelude.Result.{Result, ok, throws, runtime_error}
use coroutine_http_server.Prelude.Decimal.{to_string, ℤ, pos, negsuc, stoi}
use coroutine_http_server.Http.Headers.{Headers}
use coroutine_http_server.Http.HeaderBody.{Buffer, lift, crlf, write_to, append_string}
use coroutine_http_server.Http.HeaderBody
use coroutine_http_server.Io.Outcome
use coroutine_http_server.Io.Outcome.{Outcome, ◌>>=◌}
use coroutine_http_server.Io.IStream.{getline}
use coroutine_http_server.Io.OStream.Session.{Call, text}

pub record Response : Type 0 where
  pub status : ℤ
  pub headers : Headers
  pub body : Bytes

-- `{}` of `std::format` for an `int`
unfoldable pub format_int : ℤ → Bytes
format_int (pos n) = to_string n
format_int (negsuc n) = 45 ∷ to_string (suc n)

abbrev pub version : Bytes
version = codes "HTTP/1.1 "

-- The checks of the status line.
unfoldable pub status_line : Bytes → Result ℤ
status_line line =
    if starts_with line version
    then stoi (drop 9 line)
    else throws (runtime_error "invalid response: cannot find \"HTTP/1.1\"\n")

-- `read_from` over `AsyncFileBuffer`
unfoldable pub read_response : Buffer → Outcome (Buffer × Response)
read_response b = do
  (line, f) ← getline crlf b.reader
  status ← lift (status_line line)
  (b', headers, body) ← HeaderBody.read_from (record { reader = f; writer = b.writer })
  Outcome.done (b', record { status = status; headers = headers; body = body })

module _ (status_message : ℤ → Bytes) where
  -- The format "{}HTTP/1.1 {} {}\r\n"
  unfoldable pub first_line : Response → Bytes → Bytes
  first_line res line_start =
      ((((line_start ++ version) ++ format_int res.status) ++ codes " ")
        ++ status_message res.status)
      ++ crlf

  -- `write_to` over `AsyncFileBuffer`: the calls that it makes, in order.
  unfoldable pub write_response : Response → Bytes → List Call
  unfolding first_line
  write_response res line_start =
      text (first_line res line_start) ∷ write_to res.headers res.body line_start

  unfoldable pub response_to_string : Response → Bytes
  unfolding first_line
  response_to_string res = append_string (first_line res []) res.headers res.body
