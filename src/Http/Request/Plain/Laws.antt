-- ===== src/Http/Request/Plain/Laws.antt =====
-- `HTTPRequest::read_from` over a `FILE *`, of lib/include/http.hpp: its end and its result.
use coroutine_http_server.Prelude.{
  ℕ, zero, suc, ◌+◌, ◌<◌, Bool, true, false, ◌≡◌, ◌≢◌, refl, [], ◌∷◌, Bytes, All, is_empty, length,
  arith,
}
use coroutine_http_server.Prelude.Result.{
  Exception, Result, ok, throws, runtime_error, eof_exception, >>=-eq-ok,
}
use coroutine_http_server.Io.Outcome
use coroutine_http_server.Io.Outcome.{Outcome, ◌>>=◌, >>=-eq-done}
use coroutine_http_server.Http.Method.{http_method, method_eq_iff, invalid}
use coroutine_http_server.Http.Stdio.{Stdio, fgets, c_string}
use coroutine_http_server.Http.Headers.{Headers, insert_or_assign}
use coroutine_http_server.Http.HeaderBody.{is_name, lift}
use coroutine_http_server.Http.Request.{Request, request_line}
use coroutine_http_server.Http.Request.PlainLines.{
  room, next_line, stored_line, ensure_and_remove_crlf, plain_header, plain_body,
}
use coroutine_http_server.Http.Request.Plain.{plain_headers, read_from_stdio}

fgets-length : (n : ℕ) (s : Bytes) → length (fgets n s).0 + length (fgets n s).1 ≡ length s
unfolding fgets
fgets-length zero s = omega arith
fgets-length (suc n) [] = omega arith
fgets-length (suc n) (c ∷ s) = ground (arith, fgets-length n s)

stored_line-unread :
    (at_end : Exception) (has_error : Bool) (line rest : Bytes) (f' : Stdio) (s : Bytes)
    → stored_line at_end has_error (line, rest) ≡ ok (s, f')
    → length f'.unread < length line + length rest
unfolding stored_line
stored_line-unread at_end has_error [] rest f' s e = cc
stored_line-unread at_end has_error (c ∷ line) rest f' s e =
    let (checked, _, end) = >>=-eq-ok (ensure_and_remove_crlf (c_string (c ∷ line))) _ e in
    ground (arith, end)

-- A line that is read is taken off what is unread.
next_line-shorter :
    (at_end : Exception) (f f' : Stdio) (s : Bytes)
    → next_line at_end f ≡ ok (s, f')
    → length f'.unread < length f.unread
unfolding next_line
next_line-shorter at_end f f' s e =
    let stored = fgets room f.unread in
    let shorter = stored_line-unread at_end f.has_error stored.0 stored.1 f' s e in
    omega (arith, fgets-length room f.unread, shorter)

-- The code ends, with a value or an exception.
abbrev Ends {ℓ} : {A : Type ℓ} → Outcome A → Type ℓ
Ends {A = A} m = (r : Result A) × (m ≡ lift r)

lift->>=-Ends {ℓ κ} :
    {A : Type ℓ} {B : Type κ} (m : Result A) (f : A → Outcome B)
    → ((a : A) → m ≡ ok a → Ends (f a))
    → Ends (Outcome.◌>>=◌ (lift m) f)
lift->>=-Ends (ok a) f h = h a refl
lift->>=-Ends (throws x) f h = (throws x, refl)

>>=-Ends {ℓ κ} :
    {A : Type ℓ} {B : Type κ} (m : Outcome A) (f : A → Outcome B)
    → Ends m
    → ((a : A) → Ends (f a))
    → Ends (m >>= f)
>>=-Ends m f (ok a, e) h = rw e (h a)
>>=-Ends m f (throws x, e) h = rw e (throws x, refl)

plain_headers-Ends :
    (fuel : ℕ) (f : Stdio) (headers : Headers)
    → length f.unread < fuel
    → Ends (plain_headers fuel f headers)
unfolding plain_headers
plain_headers-Ends zero f headers h = elim h [ ]
plain_headers-Ends (suc fuel) f headers h =
    lift->>=-Ends (next_line (runtime_error "The stream is closed?") f) _ λ (s, f') e.
      let shorter = next_line-shorter (runtime_error "The stream is closed?") f f' s e in
      let rest = λ (later : Headers). plain_headers-Ends fuel f' later (omega arith) in
      elim (is_empty s)
        as (λ b. Ends (elim b as (λ _. Outcome (Stdio × Headers)) [
          | true ↦ Outcome.done (f', headers)
          | false ↦ lift (plain_header s) >>= λ line.
              plain_headers fuel f' (insert_or_assign line.0 line.1 headers)
        ])) [
          | true ↦ (ok (f', headers), refl)
          | false ↦
              lift->>=-Ends (plain_header s) _
                λ line _. rest (insert_or_assign line.0 line.1 headers)
        ]

-- On every request and every input, `read_from` over a `FILE *` ends: it fills the request or throws.
pub read_from_stdio-Ends :
    (req : Request) (f : Stdio) → (r : Result (Stdio × Request)) × (read_from_stdio req f ≡ lift r)
unfolding read_from_stdio
read_from_stdio-Ends req f =
    lift->>=-Ends (next_line (eof_exception "The stream is closed?\n") f) _ λ (line, f') _.
      lift->>=-Ends (request_line req.method req.uri line) _ λ (method, uri) _.
        >>=-Ends (plain_headers (suc (length f'.unread)) f' req.headers) _
          (plain_headers-Ends (suc (length f'.unread)) f' req.headers (omega arith))
          λ (f'', headers). lift->>=-Ends (plain_body f'' headers req.body) _ λ (g, body) _.
            (ok (g, record { method = method; uri = uri; headers = headers; body = body }), refl)

-- The names of the headers are letters, digits, `_` and `-`.
abbrev pub AreNamed : Headers → Type 0
AreNamed headers = All (λ (kv : Bytes × Bytes). is_name kv.0 ≡ true) headers

insert_or_assign-AreNamed :
    (name value : Bytes) (headers : Headers)
    → is_name name ≡ true
    → AreNamed headers
    → AreNamed (insert_or_assign name value headers)
unfolding insert_or_assign
insert_or_assign-AreNamed name value [] n h = (n, tt)
insert_or_assign-AreNamed name value ((k, v) ∷ headers) n h =
    ground (arith, insert_or_assign-AreNamed name value headers n h.1)

plain_header-name : (s name value : Bytes) → plain_header s ≡ ok (name, value) → is_name name ≡ true
unfolding plain_header
plain_header-name s name value e = ground arith

lift-done {ℓ} : {A : Type ℓ} {m : Result A} {a : A} → lift m ≡ Outcome.done a → m ≡ ok a
lift-done {m = ok _} e = cc
lift-done {m = throws _} e = cc

done_second {ℓ κ} :
    {A : Type ℓ} {B : Type κ} {a a' : A} {b b' : B}
    → ◌≡◌ {A = Outcome (A × B)} (Outcome.done (a, b)) (Outcome.done (a', b'))
    → b ≡ b'
done_second e = cc

plain_headers-AreNamed :
    (fuel : ℕ) (f g : Stdio) (headers headers' : Headers)
    → AreNamed headers
    → plain_headers fuel f headers ≡ Outcome.done (g, headers')
    → AreNamed headers'
unfolding plain_headers
plain_headers-AreNamed zero f g headers headers' n e = cc
plain_headers-AreNamed (suc fuel) f g headers headers' n e =
    let ((s, f'), _, after) = >>=-eq-done (lift (next_line closed f)) _ e in
    line (is_empty s) s f' (λ later. plain_headers-AreNamed fuel f' g later headers') after
  where
    closed : Exception
    closed = runtime_error "The stream is closed?"

    line :
        (last : Bool) (s : Bytes) (f' : Stdio)
        → ((later : Headers)
            → AreNamed later
            → plain_headers fuel f' later ≡ Outcome.done (g, headers')
            → AreNamed headers')
        → (elim last as (λ _. Outcome (Stdio × Headers)) [
          | true ↦ Outcome.done (f', headers)
          | false ↦ lift (plain_header s) >>= λ (name, value).
              plain_headers fuel f' (insert_or_assign name value headers)
        ])
          ≡ Outcome.done (g, headers')
        → AreNamed headers'
    line true s f' later after = rw (← (done_second after)) n
    line false s f' later after =
        let ((name, value), header, rest) = >>=-eq-done (lift (plain_header s)) _ after in
        let known = plain_header-name s name value (lift-done header) in
        later (insert_or_assign name value headers)
          (insert_or_assign-AreNamed name value headers known n) rest

request_line-known :
    (method uri line method' uri' : Bytes)
    → request_line method uri line ≡ ok (method', uri')
    → http_method method' ≢ invalid
unfolding request_line
request_line-known method uri line method' uri' e =
    ground (arith, method_eq_iff (http_method method') invalid)

-- If `read_from` over a `FILE *` fills a request, then its method is one that the program knows, and the
-- names of its headers are letters, digits, `_` and `-`, if those were that it held before.
pub read_from_stdio-IsKnown :
    (req req' : Request) (f g : Stdio)
    → AreNamed req.headers
    → read_from_stdio req f ≡ Outcome.done (g, req')
    → (http_method req'.method ≢ invalid) × AreNamed req'.headers
unfolding read_from_stdio
read_from_stdio-IsKnown req req' f g n e =
    let ((line, f'), _, e₁) =
      >>=-eq-done (lift (next_line (eof_exception "The stream is closed?\n") f)) _ e in
    let ((method, uri), parsed, e₂) =
      >>=-eq-done (lift (request_line req.method req.uri line)) _ e₁ in
    let ((f'', headers), read, e₃) =
      >>=-eq-done (plain_headers (suc (length f'.unread)) f' req.headers) _ e₂ in
    let ((_, _), _, e₄) = >>=-eq-done (lift (plain_body f'' headers req.body)) _ e₃ in
    let known = request_line-known req.method req.uri line method uri (lift-done parsed) in
    let named = plain_headers-AreNamed (suc (length f'.unread)) f' f'' req.headers headers n read in
    rw (← (done_second e₄)) (known, named)
