-- ===== src/Http/Request/Received.antt =====
-- The reader over `AsyncFileBuffer`, of lib/include/http.hpp, on the bytes that `write_to` writes for a
-- request with no body.
use mathlib.Core.Path.{subst}
use coroutine_http_server.Prelude.{
  false, ◌≡◌, ◌≢◌, refl, sym, [], ◌∷◌, ◌++◌, append_assoc, arith, All, Bytes, Lacks, Lacks-append,
}
use coroutine_http_server.Utility.Ctype.{isspace}
use coroutine_http_server.Http.Method.{http_method, invalid}
use coroutine_http_server.Http.HeaderBody.{Buffer, crlf}
use coroutine_http_server.Http.HeaderBody.Fields.{lines_of}
use coroutine_http_server.Http.HeaderBody.Sent.{IsSendable, append_string-lines}
use coroutine_http_server.Http.HeaderBody.Written.{write_to-append_string}
use coroutine_http_server.Http.Request.{Request, read_from, write_request, http_1_1}
use coroutine_http_server.Http.Request.Line.{IsWord, request_line-words, line_of-words}
use coroutine_http_server.Http.Streamed.Messages.{trimmed}
use coroutine_http_server.Io.Outcome.{done, ◌>>=◌}
use coroutine_http_server.Io.OStream.Session.{texts}
use coroutine_http_server.Io.IStream.{IStream}
use coroutine_http_server.Io.IStream.Flow.{Flow, prepend}
use coroutine_http_server.Io.IStream.Lines.{Flows}
use coroutine_http_server.Http.HeaderBody.Buffered.{line_read, header_body-read, OnLines}

word_Lacks : (w : Bytes) → All (λ c. isspace c ≡ false) w → Lacks 13 w
unfolding isspace
word_Lacks [] h = tt
word_Lacks (c ∷ w) h = (ground arith, word_Lacks w h.1)

http-Lacks : Lacks 13 http_1_1
http-Lacks = (refl, (refl, (refl, (refl, (refl, (refl, (refl, (refl, tt))))))))

-- What `write_to` puts out for a request with no body: lines, and an empty one.
write_request-lines :
    (req : Request) (rest : Bytes)
    → IsWord req.method
    → IsWord req.uri
    → IsSendable req.headers []
    → req.body ≡ []
    → texts (write_request req []) ++ rest
      ≡ (req.method ++ 32 ∷ (req.uri ++ 32 ∷ http_1_1))
        ++ (crlf ++ (lines_of req.headers ++ (crlf ++ rest)))
unfolding write_request
write_request-lines req rest m u s e =
    rw
      (
        e,
        line_of-words req m u,
        sym (write_to-append_string [] req.headers []),
        append_string-lines [] req.headers [] s.no_length,
      )
      (simp (append_assoc))

-- The bytes of a request with a header at least and no body come, in any pieces: if its method is known, the method and the
-- target are words without spaces, the headers are sendable and no value has a carriage return, then
-- the reader over `AsyncFileBuffer` ends with that request, has taken exactly its bytes, and has left
-- the writer as it was.
pub read_from-write_request :
    (b : Buffer) (req : Request) (rest : Bytes) (w : Flow)
    → http_method req.method ≢ invalid
    → IsWord req.method
    → IsWord req.uri
    → IsSendable req.headers []
    → OnLines req.headers
    → req.body ≡ []
    → Flows b.reader (prepend (texts (write_request req []) ++ rest) w)
    → (f : IStream) × (read_from b ≡ done (record { reader = f; writer = b.writer }, req))
      × Flows f (prepend rest w)
unfolding read_from
read_from-write_request b req rest w known m u s l e h =
    let line = req.method ++ 32 ∷ (req.uri ++ 32 ∷ http_1_1) in
    let lacks : Lacks 13 line =
      Lacks-append 13 req.method _ (word_Lacks req.method m.1)
        (refl, Lacks-append 13 req.uri _ (word_Lacks req.uri u.1) (refl, http-Lacks)) in
    let (f, got, h') =
      line_read b.reader line (lines_of req.headers ++ (crlf ++ rest)) w lacks
        (subst (λ t. Flows b.reader (prepend t w)) (write_request-lines req rest m u s e) h) in
    let (f', got', h'') =
      header_body-read (record { reader = f; writer = b.writer }) req.headers rest w s l h' in
    (
      f',
      rw
          (
            read_from,
            got,
            ◌>>=◌,
            trimmed req.method req.uri,
            request_line-words req.method req.uri [] [] known m u,
            got',
            e,
          )
          refl,
      h'',
    )
