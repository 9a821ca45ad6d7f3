-- ===== src/Http/Streamed/Messages.antt =====
-- Whole messages over `AsyncFileStream`, of lib/include/http.hpp: what the writers put out, and what the
-- readers make of it.
use mathlib.Core.Path.{subst}
use coroutine_http_server.Prelude.{
  ℕ, ◌≤◌, false, ◌≡◌, ◌≢◌, refl, sym, ◌∙◌, List, [], ◌∷◌, ◌++◌, append_assoc, arith, All, Bytes,
  codes, Lacks, Lacks-append, is_empty, starts_with,
}
use coroutine_http_server.Prelude.Result.{ok}
use coroutine_http_server.Prelude.Decimal.{to_string, ℤ, pos, int_max}
use coroutine_http_server.Prelude.Decimal.RoundTrip.{stoi-to_string, to_string-AreDigits}
use coroutine_http_server.Utility.Ctype.{isspace}
use coroutine_http_server.Http.Headers.{Headers}
use coroutine_http_server.Io.File.{IoResult}
use coroutine_http_server.Http.Method.{http_method, invalid}
use coroutine_http_server.Http.HeaderBody.{trim_back, crlf, write_to}
use coroutine_http_server.Http.HeaderBody.Sent.{IsSendable, received, digits-Lacks}
use coroutine_http_server.Http.HeaderBody.Written.{write_to-append_string}
use coroutine_http_server.Http.Request
use coroutine_http_server.Http.Request.{Request, line_of, request_line, http_1_1}
use coroutine_http_server.Http.Request.Line.{IsWord, request_line-words, line_of-words}
use coroutine_http_server.Http.Response
use coroutine_http_server.Http.Response.{Response, first_line, status_line, version, format_int}
use coroutine_http_server.Http.Streamed.{read_request, read_response, read_from}
use coroutine_http_server.Http.Streamed.HeaderLines.{read_from-append_string}
use coroutine_http_server.Io.Outcome.{done}
use coroutine_http_server.Io.OStream.Session.{texts}
use coroutine_http_server.Io.Stream.{Getc, getline, whole}
use coroutine_http_server.Io.Stream.Delivers.{Delivers, Delivers-split}
use coroutine_http_server.Io.Stream.Lines.{getline-crlf}

-- A line and what `append_string` appends come one after the other.
message_parts :
    (line : Bytes) (headers : Headers) (body : Bytes) {gs gs' : List Getc}
    → Lacks 10 line
    → IsSendable headers body
    → Delivers gs ((line ++ crlf) ++ texts (write_to headers body [])) gs'
    → (mid : List Getc) × (getline gs crlf ≡ done (whole line, mid))
      × (read_from mid ≡ done (gs', received headers body, body))
message_parts line headers body {gs} {gs'} h s d =
    let (mid, first, second) = Delivers-split (line ++ crlf) (texts (write_to headers body [])) d in
    (
      mid,
      getline-crlf h first,
      read_from-append_string headers body mid gs' s
          (subst (λ t. Delivers mid t gs') (sym (write_to-append_string [] headers body)) second),
    )

-- A status that an `int` holds, in front of a space.
status_line-version :
    (n : ℕ) (message : Bytes)
    → n ≤ int_max
    → status_line (version ++ (to_string n ++ 32 ∷ message)) ≡ ok (pos n)
unfolding status_line starts_with
status_line-version n message bound = stoi-to_string n (32 ∷ message) bound refl

read_response_step :
    (line : IoResult Bytes) (gs mid gs' : List Getc) (status : ℤ) (headers : Headers) (body : Bytes)
    → getline gs crlf ≡ done (line, mid)
    → line.hup ≡ false
    → status_line line.result ≡ ok status
    → read_from mid ≡ done (gs', headers, body)
    → read_response gs ≡ done (gs', record { status = status; headers = headers; body = body })
unfolding read_response
read_response_step line gs mid gs' status headers body got up checked later =
    rw (read_response, got, up, checked, later) refl

read_request_step :
    (line : IoResult Bytes) (gs mid gs' : List Getc) (method uri : Bytes) (headers : Headers)
    (body : Bytes)
    → getline gs crlf ≡ done (line, mid)
    → line.hup ≡ false
    → request_line [] [] (trim_back line.result) ≡ ok (method, uri)
    → read_from mid ≡ done (gs', headers, body)
    → read_request gs
      ≡ done (gs', record { method = method; uri = uri; headers = headers; body = body })
unfolding read_request
read_request_step line gs mid gs' method uri headers body got up checked later =
    rw (read_request, got, up, checked, later) refl

version-Lacks : Lacks 10 version
version-Lacks = (refl, (refl, (refl, (refl, (refl, (refl, (refl, (refl, (refl, tt)))))))))

first_line-status :
    (status_message : ℤ → Bytes) (res : Response) (n : ℕ)
    → res.status ≡ pos n
    → first_line status_message res []
      ≡ (version ++ (to_string n ++ 32 ∷ status_message (pos n))) ++ crlf
unfolding first_line format_int
first_line-status status_message res n e = rw e (regroup (to_string n) (status_message (pos n)))
  where
    regroup :
        (digits message : Bytes)
        → (((version ++ digits) ++ codes " ") ++ message) ++ crlf
          ≡ (version ++ (digits ++ 32 ∷ message)) ++ crlf
    regroup digits message = simp (append_assoc)

-- If a response has a status that is not negative and that an `int` holds, its reason phrase has no
-- newline, and its headers and body are sendable, then from the bytes that its writer puts out the
-- reader over `AsyncFileStream` makes the same status, the same body, and the headers with the
-- Content-Length of a body, and takes no more, however often it waits.
pub read_response-write_response :
    (status_message : ℤ → Bytes) (res : Response) (n : ℕ) (gs gs' : List Getc)
    → res.status ≡ pos n
    → n ≤ int_max
    → Lacks 10 (status_message (pos n))
    → IsSendable res.headers res.body
    → Delivers gs (texts (Response.write_response status_message res [])) gs'
    → read_response gs ≡ done (gs', record res { headers = received res.headers res.body })
unfolding Response.write_response first_line format_int
read_response-write_response status_message res n gs gs' e bound one_line s d =
    let line = version ++ (to_string n ++ 32 ∷ status_message (pos n)) in
    let digits = digits-Lacks (to_string n) (to_string-AreDigits n) in
    let (mid, got, later) =
      message_parts line res.headers res.body
        (Lacks-append 10 version _ version-Lacks
          (Lacks-append 10 (to_string n) (32 ∷ status_message (pos n)) digits (refl, one_line)))
        s
        (subst (λ t. Delivers gs (t ++ texts (write_to res.headers res.body [])) gs')
          (first_line-status status_message res n e) d) in
    read_response_step _ gs mid gs' (pos n) (received res.headers res.body) res.body got refl
      (status_line-version n (status_message (pos n)) bound) later
    ∙ rw e refl

not_empty : (s : Bytes) (c : ℕ) → is_empty (s ++ c ∷ []) ≡ false
not_empty [] c = refl
not_empty (d ∷ s) c = refl

trim_back_last : (s : Bytes) (c : ℕ) → isspace c ≡ false → trim_back (s ++ c ∷ []) ≡ s ++ c ∷ []
unfolding trim_back
trim_back_last [] c h = rw h refl
trim_back_last (d ∷ s) c h = rw (trim_back_last s c h, not_empty s c) refl

word_Lacks : (w : Bytes) → All (λ c. isspace c ≡ false) w → Lacks 10 w
unfolding isspace
word_Lacks [] h = tt
word_Lacks (c ∷ w) h = (ground arith, word_Lacks w h.1)

http-Lacks : Lacks 10 http_1_1
http-Lacks = (refl, (refl, (refl, (refl, (refl, (refl, (refl, (refl, tt))))))))

up_to_last :
    (m u : Bytes)
    → m ++ 32 ∷ (u ++ 32 ∷ http_1_1) ≡ (m ++ 32 ∷ (u ++ 32 ∷ codes "HTTP/1.")) ++ codes "1"
up_to_last m u = simp (append_assoc)

-- No space stands at the end of a request line.
pub trimmed :
    (m u : Bytes) → trim_back (m ++ 32 ∷ (u ++ 32 ∷ http_1_1)) ≡ m ++ 32 ∷ (u ++ 32 ∷ http_1_1)
unfolding isspace
trimmed m u = rw (up_to_last m u) (trim_back_last (m ++ 32 ∷ (u ++ 32 ∷ codes "HTTP/1.")) 49 refl)

-- If the method of a request is known, the method and the target are words without spaces, and the
-- headers and the body are sendable, then from the bytes that its writer puts out the reader over
-- `AsyncFileStream` makes the same method, target and body, and the headers with the Content-Length of
-- a body, and takes no more, however often it waits.
pub read_request-write_request :
    (req : Request) (gs gs' : List Getc)
    → http_method req.method ≢ invalid
    → IsWord req.method
    → IsWord req.uri
    → IsSendable req.headers req.body
    → Delivers gs (texts (Request.write_request req [])) gs'
    → read_request gs ≡ done (gs', record req { headers = received req.headers req.body })
unfolding Request.write_request
read_request-write_request req gs gs' known m u s d =
    let line = req.method ++ 32 ∷ (req.uri ++ 32 ∷ http_1_1) in
    let lacks : Lacks 10 line =
      Lacks-append 10 req.method _ (word_Lacks req.method m.1)
        (refl, Lacks-append 10 req.uri _ (word_Lacks req.uri u.1) (refl, http-Lacks)) in
    let (mid, got, later) = message_parts line req.headers req.body lacks s (
      subst (λ t. Delivers gs (t ++ texts (write_to req.headers req.body [])) gs')
        (line_of-words req m u) d) in
    read_request_step _ gs mid gs' req.method req.uri (received req.headers req.body) req.body got
      refl (rw (trimmed req.method req.uri) (request_line-words req.method req.uri [] [] known m u))
      later
