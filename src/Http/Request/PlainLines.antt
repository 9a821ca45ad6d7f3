-- ===== src/Http/Request/PlainLines.antt =====
-- The lines and the body that `HTTPRequest::read_from` takes off a `FILE *`, of lib/include/http.hpp.
use coroutine_http_server.Prelude.{
  ℕ, ◌+◌, Bool, not, none, some, [], ◌∷◌, ◌==◌, ltb, if◌then◌else◌, Bytes, find, take, drop, length,
}
use coroutine_http_server.Prelude.Result.{
  Exception, Result, ok, throws, runtime_error, syscall_error, ◌>>=◌,
}
use coroutine_http_server.Prelude.Decimal.{stoi}
use coroutine_http_server.Http.Stdio.{Stdio, fgets, c_string}
use coroutine_http_server.Http.Headers.{Headers, find_header, content_length}
use coroutine_http_server.Http.HeaderBody.{is_name, skip_spaces, resize, colon}

-- The lambda `ensure_and_remove_crlf`
unfoldable pub ensure_and_remove_crlf : Bytes → Result Bytes
ensure_and_remove_crlf [] = throws (runtime_error "no \\n\n")
ensure_and_remove_crlf (c ∷ []) =
    if c == 10 then throws (runtime_error "no \\r\\n\n") else throws (runtime_error "no \\n\n")
ensure_and_remove_crlf (c ∷ d ∷ []) =
    if not (d == 10)
    then throws (runtime_error "no \\n\n")
    else if c == 13
    then ok []
    else throws (runtime_error "no \\r\\n\n")
ensure_and_remove_crlf (c ∷ d ∷ e ∷ s) = do rest ← ensure_and_remove_crlf (d ∷ e ∷ s); ok (c ∷ rest)

-- The array `buf[1024]` holds a NUL behind the bytes of a line.
abbrev pub room : ℕ
room = 1023

-- What follows a call of `fgets`: what is thrown when nothing is stored, and the checked line without
-- its end.
unfoldable pub stored_line : Exception → Bool → Bytes × Bytes → Result (Bytes × Stdio)
stored_line at_end has_error ([], rest) =
    throws (if has_error then syscall_error "fgets" else at_end)
stored_line at_end has_error (c ∷ line, rest) = do
  s ← ensure_and_remove_crlf (c_string (c ∷ line))
  ok (s, record { unread = rest; has_error = has_error })

-- A line of the request, with what is thrown at the end of the file.
unfoldable pub next_line : Exception → Stdio → Result (Bytes × Stdio)
unfolding stored_line
next_line at_end f = stored_line at_end f.has_error (fgets room f.unread)

-- A header line of this reader: it trims no spaces at the end, and takes an empty value.
unfoldable pub plain_header : Bytes → Result (Bytes × Bytes)
plain_header s = elim (find colon s) [
  | none ↦ throws (runtime_error "invalid response: cannot find \":\"\n")
  | some i ↦
      if is_name (take i s)
      then ok (take i s, skip_spaces (drop (i + 1) s))
      else throws (runtime_error "invalid response: get field name ")
]

-- The end of the reader: `body` is resized and filled.
unfoldable pub plain_body : Stdio → Headers → Bytes → Result (Stdio × Bytes)
plain_body f headers body = elim (find_header content_length headers) [
  | none ↦ ok (f, body)
  | some v ↦ do
    len ← stoi v
    resized ← resize len
    (if ltb (length f.unread) (length resized)
        then throws (runtime_error "invalid response: premature EOF\n")
        else ok (
          record { unread = drop (length resized) f.unread; has_error = f.has_error },
          take (length resized) f.unread,
        ))
]
