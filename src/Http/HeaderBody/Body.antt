-- ===== src/Http/HeaderBody/Body.antt =====
-- The body in `HTTPHeaderBody::read_from` over `AsyncFileBuffer`, of lib/include/http.hpp.
use coroutine_http_server.Prelude.{ℕ, ◌≡◌, refl, sym, ◌∙◌, some, ◌++◌, Bytes, replicate}
use coroutine_http_server.Prelude.Result.{ok}
use coroutine_http_server.Prelude.Decimal.{pos, stoi}
use coroutine_http_server.Io.Outcome.{done, ◌>>=◌, >>=-eq-done}
use coroutine_http_server.Http.Headers.{Headers, find_header, content_length}
use coroutine_http_server.Http.HeaderBody.{read_body, resize}
use coroutine_http_server.Io.OStream.{OStream, puts}
use coroutine_http_server.Io.OStream.Written.{IsValid, written}
use coroutine_http_server.Io.OStream.Put.{puts-written}

read_body-puts :
    (g : OStream) (headers : Headers) (v : Bytes) (n : ℕ)
    → find_header content_length headers ≡ some v
    → stoi v ≡ ok (pos n)
    → read_body g headers ≡ (puts (replicate n 0) g >>= λ g'. done (g', replicate n 0))
unfolding read_body resize
read_body-puts g headers v n found len = rw (found, read_body, len) refl

-- If the headers hold a Content-Length of n and the reader of the body ends on a valid output stream,
-- then the body is n zero bytes, and the reader has written n zero bytes to the peer.
pub read_body-zeros :
    (g g' : OStream) (headers : Headers) (v : Bytes) (n : ℕ) (body : Bytes)
    → IsValid g
    → find_header content_length headers ≡ some v
    → stoi v ≡ ok (pos n)
    → read_body g headers ≡ done (g', body)
    → (body ≡ replicate n 0) × (written g' ≡ written g ++ replicate n 0)
read_body-zeros g g' headers v n body valid found len e =
    let (sent, put, end) =
      >>=-eq-done (puts (replicate n 0) g) _ (sym (read_body-puts g headers v n found len) ∙ e) in
    let (_, all) = puts-written (replicate n 0) g sent valid put in
    let same : g' ≡ sent = cc in (cc, rw same all)
