-- ===== src/Http/Streamed/HeaderLines.antt =====
-- `HTTPHeaderBody::read_from` over `AsyncFileStream`, of lib/include/http.hpp, on the lines that
-- `append_string` writes.
use mathlib.Core.Path.{subst}
use coroutine_http_server.Prelude.{
  ℕ, zero, suc, ◌≤◌, ◌<◌, Bool, true, false, not, ◌&&◌, ◌≡◌, refl, ◌∙◌, List, [], ◌∷◌, ◌++◌,
  append_assoc, append-nil, arith, Bytes, length, is_empty, length-append, some, length-replicate,
}
use coroutine_http_server.Prelude.Result.{ok}
use coroutine_http_server.Prelude.Decimal.{to_string, stoi, pos}
use coroutine_http_server.Prelude.Decimal.RoundTrip.{stoi-to_string}
use coroutine_http_server.Http.Headers.{Headers, insert_or_assign, find_header, content_length}
use coroutine_http_server.Http.Headers.Order.{
  assign_all, find_header-insert_or_assign, find_header-none,
}
use coroutine_http_server.Http.HeaderBody.{parse_header, no_headers, crlf, resize, append_string}
use coroutine_http_server.Http.HeaderBody.Fields.{
  AreFields, line_of_field, lines_of, field_nonempty, parse_header-field, field-Lacks,
}
use coroutine_http_server.Http.HeaderBody.Sent.{
  IsSendable, received, sent_fields, sent_fields-AreFields, sent_fields-received,
  append_string-lines,
}
use coroutine_http_server.Http.Streamed.{read_headers, read_body, read_from}
use coroutine_http_server.Io.Outcome.{done}
use coroutine_http_server.Io.File.{IoResult}
use coroutine_http_server.Io.Stream.{Getc, getline, read_buffer, whole}
use coroutine_http_server.Io.Stream.Delivers.{
  Delivers, Delivers-split, rest, next, pause, read_buffer-Delivers,
}
use coroutine_http_server.Io.Stream.Lines.{getline-crlf}

-- No byte comes without a call of `getc`.
Delivers-length : {gs gs' : List Getc} {xs : Bytes} → Delivers gs xs gs' → length xs ≤ length gs
Delivers-length (rest gs) = omega arith
Delivers-length (next c d) = omega (arith, Delivers-length d)
Delivers-length (pause ev h d) = omega (arith, Delivers-length d)

-- The fields end the headers: some field was read before or is read now.
abbrev pub some_header : Headers → Headers → Bool
some_header fields acc = not (no_headers fields && no_headers acc)

pub insert_some : (k v : Bytes) (acc : Headers) → no_headers (insert_or_assign k v acc) ≡ false
unfolding insert_or_assign
insert_some k v [] = refl
insert_some k v ((j, w) ∷ acc) = ground arith

two_lines :
    (line more : Bytes) → (line ++ (crlf ++ more)) ++ crlf ≡ (line ++ crlf) ++ (more ++ crlf)
two_lines line more = simp (append_assoc)

pub still : (fields acc : Headers) → no_headers acc ≡ false → some_header fields acc ≡ true
still [] acc e = rw e refl
still (p ∷ fields) acc e = refl

pub and_false : (b : Bool) → (b && false) ≡ false
and_false true = refl
and_false false = refl

read_headers_step :
    (fuel : ℕ) (line : IoResult Bytes) (gs mid : List Getc) (acc : Headers) (k v : Bytes)
    → getline gs crlf ≡ done (line, mid)
    → line.hup ≡ false
    → is_empty line.result ≡ false
    → parse_header line.result ≡ ok (k, v)
    → read_headers (suc fuel) gs acc ≡ read_headers fuel mid (insert_or_assign k v acc)
unfolding read_headers
read_headers_step fuel line gs mid acc k v got up some_byte parsed =
    rw (read_headers, got, up, some_byte, and_false (not (no_headers acc)), parsed) refl

read_headers-lines :
    (fields : Headers) (fuel : ℕ) (gs gs' : List Getc) (acc : Headers)
    → AreFields fields
    → some_header fields acc ≡ true
    → length fields < fuel
    → Delivers gs (lines_of fields ++ crlf) gs'
    → read_headers fuel gs acc ≡ done (gs', assign_all fields acc)
unfolding read_headers assign_all
read_headers-lines fields zero gs gs' acc f first_or_later enough d = ground arith
read_headers-lines [] (suc fuel) gs gs' [] f first_or_later enough d = cc
read_headers-lines [] (suc fuel) gs gs' (a ∷ acc) f first_or_later enough d =
    rw (getline-crlf {line = []} tt d) refl
read_headers-lines ((k, v) ∷ fields) (suc fuel) gs gs' acc f first_or_later enough d =
    let (mid, first, second) =
      Delivers-split (line_of_field k v ++ crlf) (lines_of fields ++ crlf)
        (subst (λ s. Delivers gs s gs') (two_lines (line_of_field k v) (lines_of fields)) d) in
    let got = getline-crlf (field-Lacks k v f.0) first in
    let later =
      read_headers-lines fields fuel mid gs' (insert_or_assign k v acc) f.1
        (still fields _ (insert_some k v acc)) (omega arith) second in
    read_headers_step fuel _ gs mid acc k v got refl (field_nonempty k v)
      (parse_header-field k v f.0)
    ∙ later

read_body_step :
    (headers : Headers) (v body : Bytes) (n : ℕ) (gs gs' : List Getc)
    → find_header content_length headers ≡ some v
    → stoi v ≡ ok (pos n)
    → read_buffer gs n ≡ done (whole body, gs')
    → read_body gs headers ≡ done (gs', body)
unfolding read_body resize
read_body_step headers v body n gs gs' found len got =
    rw (found, read_body, len, length-replicate {A = ℕ} n 0, got) refl

read_body-received :
    {headers : Headers} (body : Bytes) {gs gs' : List Getc}
    → IsSendable headers body
    → Delivers gs body gs'
    → read_body gs (received headers body) ≡ done (gs', body)
unfolding read_body
read_body-received {headers} [] s (rest gs) =
    rw (read_body, find_header-none content_length headers s.no_length) refl
read_body-received {headers} (c ∷ body) {gs = gs} {gs' = gs'} s d =
    let n = length (c ∷ body) in
    read_body_step (received headers (c ∷ body)) (to_string n) (c ∷ body) n gs gs'
      (find_header-insert_or_assign content_length (to_string n) headers)
      (subst (λ t. stoi t ≡ ok (pos n)) (append-nil (to_string n)) (stoi-to_string n [] s.fits tt))
      (read_buffer-Delivers d)

pub length-lines_of : (headers : Headers) → length headers ≤ length (lines_of headers)
length-lines_of [] = omega arith
length-lines_of ((k, v) ∷ headers) =
    let later = length-lines_of headers in
    let size = length-append (line_of_field k v) (crlf ++ lines_of headers) in
    omega (arith, later, size)

sent_first :
    (headers : Headers) (body : Bytes)
    → (no_headers headers && is_empty body) ≡ false
    → some_header (sent_fields headers body) [] ≡ true
sent_first [] [] h = cc
sent_first [] (c ∷ body) h = refl
sent_first (p ∷ headers) [] h = refl
sent_first (p ∷ headers) (c ∷ body) h = refl

-- If headers and a body are sendable and the bytes that `append_string` appends for them come, then the
-- reader over `AsyncFileStream` ends with the headers, among them the Content-Length when there is a
-- body, and the body, and takes no more, however often it waits.
pub read_from-append_string :
    (headers : Headers) (body : Bytes) (gs gs' : List Getc)
    → IsSendable headers body
    → Delivers gs (append_string [] headers body) gs'
    → read_from gs ≡ done (gs', received headers body, body)
unfolding read_from
read_from-append_string headers body gs gs' s d =
    let fields = sent_fields headers body in
    let (mid, first, second) =
      Delivers-split (lines_of fields ++ crlf) body
        (subst (λ t. Delivers gs t gs') (append_string-lines [] headers body s.no_length) d) in
    let size = length-append (lines_of fields) crlf in
    let some_calls = Delivers-length first in
    let few = length-lines_of fields in
    let got =
      read_headers-lines fields (suc (length gs)) gs mid []
        (sent_fields-AreFields headers body s.are_fields) (sent_first headers body s.some_line)
        (omega (arith, size, some_calls, few)) first in
    rw (got, sent_fields-received headers body s.is_map, read_body-received body s second) refl
