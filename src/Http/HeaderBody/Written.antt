-- ===== src/Http/HeaderBody/Written.antt =====
-- The writers of lib/include/http.hpp's `HTTPHeaderBody`: `write_to` against `append_string`.
use coroutine_http_server.Prelude.{
  Bool, true, false, ◌≡◌, refl, sym, ◌∙◌, List, [], ◌∷◌, ◌++◌, append_assoc, append-nil, Bytes,
  codes, length,
}
use coroutine_http_server.Prelude.Decimal.{to_string}
use coroutine_http_server.Utility.Compare.{equal}
use coroutine_http_server.Http.Headers.{Headers, content_length}
use coroutine_http_server.Http.HeaderBody.{
  header_calls, length_calls, body_calls, write_to, append_headers, append_string, crlf,
}
use coroutine_http_server.Io.OStream.Session.{Call, text, texts}

regroup :
    (s k colon v end rest : Bytes)
    → s ++ (k ++ (colon ++ (v ++ (end ++ rest)))) ≡ ((((s ++ k) ++ colon) ++ v) ++ end) ++ rest
regroup s k colon v end rest = simp (append_assoc)

header_calls-texts :
    (s : Bytes) (headers : Headers) (rest : List Call)
    → s ++ texts (header_calls [] headers rest) ≡ append_headers s headers ++ texts rest
unfolding header_calls append_headers
header_calls-texts s [] rest = refl
header_calls-texts s ((k, v) ∷ headers) rest =
    entry (equal k content_length) refl (λ s'. header_calls-texts s' headers rest)
  where
    entry :
        (is_length : Bool)
        → equal k content_length ≡ is_length
        → ((s' : Bytes)
            → s' ++ texts (header_calls [] headers rest) ≡ append_headers s' headers ++ texts rest)
        → s ++ texts (header_calls [] ((k, v) ∷ headers) rest)
          ≡ append_headers s ((k, v) ∷ headers) ++ texts rest
    entry true e later = rw e (later s)
    entry false e later = rw e (
        regroup s k (codes ": ") v crlf (texts (header_calls [] headers rest))
        ∙ later ((((s ++ k) ++ codes ": ") ++ v) ++ crlf))

regroup_length :
    (s k n end body : Bytes)
    → s ++ (k ++ (n ++ (end ++ (end ++ (body ++ []))))) ≡ ((((s ++ k) ++ n) ++ end) ++ end) ++ body
regroup_length s k n end body = simp (append_assoc, append-nil)

-- Without a line prefix, the bytes that `write_to` puts on the stream are what `append_string` appends
-- to a string, for every string, headers and body.
pub write_to-append_string :
    (s : Bytes) (headers : Headers) (body : Bytes)
    → append_string s headers body ≡ s ++ texts (write_to headers body [])
unfolding write_to append_string length_calls body_calls
write_to-append_string s headers [] =
    append-nil (append_headers s headers ++ crlf)
    ∙ sym (header_calls-texts s headers (text crlf ∷ []))
write_to-append_string s headers (c ∷ body) =
    let after =
      text (codes "Content-Length: ")
      ∷ text (to_string (length (c ∷ body)))
      ∷ text crlf
      ∷ text crlf
      ∷ text (c ∷ body)
      ∷ [] in
    sym (
      header_calls-texts s headers after
      ∙ regroup_length (append_headers s headers) (codes "Content-Length: ")
          (to_string (length (c ∷ body))) crlf (c ∷ body))
