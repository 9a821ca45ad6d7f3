-- ===== src/Http/Streamed/Ends.antt =====
-- The fuel of the readers over `AsyncFileStream`, of lib/include/http.hpp.
use coroutine_http_server.Prelude.{
  ℕ, zero, suc, ◌<◌, ◌≤◌, ◌≡◌, inl, inr, List, [], ◌∷◌, ◌++◌, Bytes, length, arith, ends_with,
  Option-cases,
}
use coroutine_http_server.Prelude.Decimal.{stoi}
use coroutine_http_server.Http.Headers.{Headers, insert_or_assign, find_header, content_length}
use coroutine_http_server.Http.HeaderBody.Ends.{lift-IsFueled}
use coroutine_http_server.Http.HeaderBody.{lift, crlf, parse_header, resize}
use coroutine_http_server.Http.Streamed.{
  read_headers, read_body, read_from, checked_request, checked_response, read_request,
  read_response,
}
use coroutine_http_server.Io.Outcome.{done, IsFueled, >>=-IsFueled, done-IsFueled}
use coroutine_http_server.Io.File.{IoResult}
use coroutine_http_server.Io.Stream.{
  Getc, byte, again, end_of_file, failed, getline, getline_from, read_buffer,
}
use coroutine_http_server.Io.Stream

getline_from-length :
    (gs : List Getc) (delim s : Bytes) (line : IoResult Bytes) (gs' : List Getc)
    → getline_from gs delim s ≡ done (line, gs')
    → length gs' ≤ length gs
unfolding getline_from
getline_from-length [] delim s line gs' e = ground arith
getline_from-length (byte c ∷ gs) delim s line gs' e =
    ground (arith, getline_from-length gs delim (s ++ c ∷ []) line gs')
getline_from-length (again ev ∷ gs) delim s line gs' e =
    ground (arith, getline_from-length gs delim s line gs')
getline_from-length (end_of_file ∷ gs) delim s line gs' e = ground arith
getline_from-length (failed ∷ gs) delim s line gs' e = ground arith

-- A line takes a call of `getc`.
getline-shorter :
    (gs : List Getc) (line : IoResult Bytes) (gs' : List Getc)
    → getline gs crlf ≡ done (line, gs')
    → length gs' < length gs
unfolding getline getline_from ends_with
getline-shorter [] line gs' e = ground arith
getline-shorter (byte c ∷ gs) line gs' e =
    omega (arith, getline_from-length gs crlf (c ∷ []) line gs' e)
getline-shorter (again ev ∷ gs) line gs' e = ground (arith, getline_from-length gs crlf [] line gs')
getline-shorter (end_of_file ∷ gs) line gs' e = ground arith
getline-shorter (failed ∷ gs) line gs' e = ground arith

getline_from-IsFueled : (gs : List Getc) (delim s : Bytes) → IsFueled (getline_from gs delim s)
unfolding getline_from
getline_from-IsFueled [] delim s = ground arith
getline_from-IsFueled (byte c ∷ gs) delim s =
    ground (arith, getline_from-IsFueled gs delim (s ++ c ∷ []))
getline_from-IsFueled (again ev ∷ gs) delim s = ground (arith, getline_from-IsFueled gs delim s)
getline_from-IsFueled (end_of_file ∷ gs) delim s = ground arith
getline_from-IsFueled (failed ∷ gs) delim s = ground arith

bytes-IsFueled : (gs : List Getc) (n : ℕ) (buf : Bytes) → IsFueled (Stream.read_from gs n buf)
unfolding Stream.read_from
bytes-IsFueled gs zero buf = λ e. cc
bytes-IsFueled [] (suc n) buf = λ e. cc
bytes-IsFueled (byte c ∷ gs) (suc n) buf = bytes-IsFueled gs n (buf ++ c ∷ [])
bytes-IsFueled (again ev ∷ gs) (suc n) buf = ground (arith, bytes-IsFueled gs (suc n) buf)
bytes-IsFueled (end_of_file ∷ gs) (suc n) buf = λ e. cc
bytes-IsFueled (failed ∷ gs) (suc n) buf = λ e. cc

getline-IsFueled : (gs : List Getc) (delim : Bytes) → IsFueled (getline gs delim)
unfolding getline
getline-IsFueled gs delim = getline_from-IsFueled gs delim []

read_headers-IsFueled :
    (fuel : ℕ) (gs : List Getc) (headers : Headers)
    → length gs < fuel
    → IsFueled (read_headers fuel gs headers)
unfolding read_headers
read_headers-IsFueled zero gs headers h = elim h [ ]
read_headers-IsFueled (suc fuel) gs headers h =
    >>=-IsFueled (getline gs crlf) _ (getline-IsFueled gs crlf) λ (line, gs') e.
      let shorter = getline-shorter gs line gs' e in
      let later = λ (kept : Headers). read_headers-IsFueled fuel gs' kept (omega arith) in
      let field =
        >>=-IsFueled (lift (parse_header line.result)) _ (lift-IsFueled (parse_header line.result))
          λ p _. later (insert_or_assign p.0 p.1 headers) in
      ground (arith, field)

read_body-IsFueled : (gs : List Getc) (headers : Headers) → IsFueled (read_body gs headers)
unfolding read_body read_buffer
read_body-IsFueled gs headers = elim (Option-cases (find_header content_length headers)) [
  | inl e ↦ rw (read_body, e) (done-IsFueled _)
  | inr (v, e) ↦
      rw (read_body, e)
        (>>=-IsFueled (lift (stoi v)) _ (lift-IsFueled (stoi v)) λ len _.
          >>=-IsFueled (lift (resize len)) _ (lift-IsFueled (resize len)) λ body _.
            >>=-IsFueled (read_buffer gs (length body)) _ (bytes-IsFueled gs (length body) [])
              λ (res, gs') _. ground arith)
]

read_from-IsFueled : (gs : List Getc) → IsFueled (read_from gs)
unfolding read_from
read_from-IsFueled gs =
    >>=-IsFueled (read_headers (suc (length gs)) gs []) _
      (read_headers-IsFueled (suc (length gs)) gs [] (omega arith))
      λ (gs', headers) _.
        >>=-IsFueled (read_body gs' headers) _ (read_body-IsFueled gs' headers)
          λ _ _. done-IsFueled _

-- On every sequence of results of `getc`, the readers of a request and of a response over
-- `AsyncFileStream` end, with a message or an exception, or wait for an event that does not come: the
-- loop over the header lines does not use up its fuel.
pub read_message-IsFueled :
    (gs : List Getc) → IsFueled (read_request gs) × IsFueled (read_response gs)
unfolding read_request read_response
read_message-IsFueled gs = (
  >>=-IsFueled (getline gs crlf) _ (getline-IsFueled gs crlf) λ (line, gs') _.
      >>=-IsFueled (lift (checked_request line)) _ (lift-IsFueled (checked_request line))
        λ _ _. >>=-IsFueled (read_from gs') _ (read_from-IsFueled gs') λ _ _. done-IsFueled _,
  >>=-IsFueled (getline gs crlf) _ (getline-IsFueled gs crlf) λ (line, gs') _.
      >>=-IsFueled (lift (checked_response line)) _ (lift-IsFueled (checked_response line))
        λ _ _. >>=-IsFueled (read_from gs') _ (read_from-IsFueled gs') λ _ _. done-IsFueled _,
)
