-- ===== src/Http/Streamed.antt =====
-- The readers and writers of lib/include/http.hpp over `AsyncFileStream`: those of `HTTPHeaderBody`,
-- `HTTPRequest` and `HTTPResponse`.
pub mod Ends
pub mod Writes
pub mod HeaderLines
pub mod Messages
use coroutine_http_server.Prelude.{
  ℕ, zero, suc, ◌+◌, Bool, true, false, not, ◌&&◌, none, some, List, [], ◌∷◌, ◌++◌, ◌==◌,
  if◌then◌else◌, Bytes, codes, is_empty, length,
}
use coroutine_http_server.Prelude.Result.{Result, throws, runtime_error, syscall_error, Exception}
use coroutine_http_server.Prelude.Decimal.{to_string, ℤ, stoi}
use coroutine_http_server.Utility.Compare.{equal}
use coroutine_http_server.Http.Headers.{Headers, insert_or_assign, find_header, content_length}
use coroutine_http_server.Http.HeaderBody.{parse_header, lift, no_headers, resize, crlf, trim_back}
use coroutine_http_server.Http.Request.{Request, request_line, line_of}
use coroutine_http_server.Http.Response.{Response, status_line, first_line}
use coroutine_http_server.Io.Outcome
use coroutine_http_server.Io.Outcome.{Outcome, ◌>>=◌}
use coroutine_http_server.Io.File.{IoResult}
use coroutine_http_server.Io.Stream.{Getc, Putc, getline, read_buffer, print}

-- The loop of `HTTPHeaderBody::read_from` over the header lines; the fuel counts them.
unfoldable pub read_headers : ℕ → List Getc → Headers → Outcome (List Getc × Headers)
read_headers zero gs headers = Outcome.exhausted
read_headers (suc fuel) gs headers = do
  (line, gs') ← getline gs crlf
  elim line.hup [
    | true ↦ Outcome.throws (runtime_error "invalid response: premature EOF\n")
    | false ↦ elim (not (no_headers headers) && is_empty line.result) [
      | true ↦ Outcome.done (gs', headers)
      | false ↦ do
        (name, value) ← lift (parse_header line.result)
        read_headers fuel gs' (insert_or_assign name value headers)
    ]
  ]

-- The end of `HTTPHeaderBody::read_from`: the body is resized and filled.
unfoldable pub read_body : List Getc → Headers → Outcome (List Getc × Bytes)
unfolding resize
read_body gs headers = elim (find_header content_length headers) [
  | none ↦ Outcome.done (gs, [])
  | some v ↦ do
    len ← lift (stoi v)
    body ← lift (resize len)
    (res, gs') ← read_buffer gs (length body)
    elim res.hup [
      | true ↦ Outcome.throws (runtime_error "invalid response: premature EOF\n")
      | false ↦ Outcome.done (gs', res.result)
    ]
]

-- `HTTPHeaderBody::read_from`, with the headers and the body cleared before.
unfoldable pub read_from : List Getc → Outcome (List Getc × Headers × Bytes)
unfolding read_headers read_body
read_from gs = do
  (gs', headers) ← read_headers (suc (length gs)) gs []
  (gs'', body) ← read_body gs' headers
  Outcome.done (gs'', headers, body)

-- `line.hup || ...` in front of the checks of a first line
abbrev unless_hup {ℓ} : {A : Type ℓ} → Bool → Exception → Result A → Result A
unless_hup true e r = throws e
unless_hup false e r = r

abbrev pub checked_request : IoResult Bytes → Result (Bytes × Bytes)
checked_request line =
    unless_hup line.hup (runtime_error "invalid request: cannot find \"HTTP/1.1\"\n")
      (request_line [] [] (trim_back line.result))

abbrev pub checked_response : IoResult Bytes → Result ℤ
checked_response line =
    unless_hup line.hup (runtime_error "invalid response: cannot find \"HTTP/1.1\"\n")
      (status_line line.result)

-- `HTTPRequest::read_from`
unfoldable pub read_request : List Getc → Outcome (List Getc × Request)
read_request gs = do
  (line, gs') ← getline gs crlf
  (method, uri) ← lift (checked_request line)
  (gs'', headers, body) ← read_from gs'
  Outcome.done (gs'', record { method = method; uri = uri; headers = headers; body = body })

-- `HTTPResponse::read_from`
unfoldable pub read_response : List Getc → Outcome (List Getc × Response)
read_response gs = do
  (line, gs') ← getline gs crlf
  status ← lift (checked_response line)
  (gs'', headers, body) ← read_from gs'
  Outcome.done (gs'', record { status = status; headers = headers; body = body })

-- The loop of `HTTPHeaderBody::write_to` over the headers, from the string so far.
unfoldable pub add_headers : Bytes → Bytes → Headers → Bytes
add_headers line_start s [] = s
add_headers line_start s ((k, v) ∷ headers) =
    add_headers line_start
      (if equal k content_length
        then s
        else ((((s ++ line_start) ++ k) ++ codes ": ") ++ v) ++ crlf)
      headers

-- The string in front of the body.
unfoldable pub head_of : Headers → Bytes → Bytes → Bytes
unfolding add_headers
head_of headers body line_start =
    let s = add_headers line_start [] headers in
    let s =
      (if is_empty body
        then s
        else (((s ++ line_start) ++ codes "Content-Length: ") ++ to_string (length body))
          ++ crlf) in
    (s ++ line_start) ++ crlf

-- The loop over the lines of the body; `part` is what has been read of the current one.
unfoldable pub body_prints : Bytes → Bytes → Bytes → List Bytes
body_prints line_start part [] = if is_empty part then [] else part ∷ []
body_prints line_start part (c ∷ sv) = elim (c == 10) [
  | true ↦ part ∷ (10 ∷ []) ∷ line_start ∷ body_prints line_start [] sv
  | false ↦ body_prints line_start (part ++ c ∷ []) sv
]

-- `HTTPHeaderBody::write_to`: the strings that it prints, in order.
unfoldable pub prints_of : Headers → Bytes → Bytes → List Bytes
unfolding head_of body_prints
prints_of headers [] line_start = head_of headers [] line_start ∷ []
prints_of headers (c ∷ body) line_start =
    head_of headers (c ∷ body) line_start
    ∷ (if is_empty line_start
        then (c ∷ body) ∷ []
        else line_start ∷ body_prints line_start [] (c ∷ body))

-- Prints that are each followed by `if (res.hup) THROW_SYSCALL("write-end hung up")`: the bytes that
-- are written.
unfoldable pub print_all : List Bytes → List Putc → Outcome (Bytes × List Putc)
print_all [] ps = Outcome.done ([], ps)
print_all (sv ∷ svs) ps = do
  (res, sent, ps') ← print sv ps
  elim res.hup [
    | true ↦ Outcome.throws (syscall_error "write-end hung up")
    | false ↦ do (later, ps'') ← print_all svs ps'; Outcome.done (sent ++ later, ps'')
  ]

-- A first line, whose hang-up is not looked at, and the headers and body.
unfoldable pub write_message :
    Bytes → Headers → Bytes → Bytes → List Putc → Outcome (Bytes × List Putc)
unfolding print_all prints_of
write_message line headers body line_start ps = do
  (res, sent, ps') ← print line ps
  (later, ps'') ← print_all (prints_of headers body line_start) ps'
  Outcome.done (sent ++ later, ps'')

-- `HTTPRequest::write_to`
unfoldable pub write_request : Request → Bytes → List Putc → Outcome (Bytes × List Putc)
unfolding write_message
write_request req line_start ps =
    write_message (line_of req line_start) req.headers req.body line_start ps

-- `HTTPResponse::write_to`
unfoldable pub write_response :
    (ℤ → Bytes) → Response → Bytes → List Putc → Outcome (Bytes × List Putc)
unfolding write_message
write_response status_message res line_start ps =
    write_message (first_line status_message res line_start) res.headers res.body line_start ps
