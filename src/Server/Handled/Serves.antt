-- ===== src/Server/Handled/Serves.antt =====
-- `handle_request` of example/server_epoll_coro.cpp on a client that sends a whole request.
use mathlib.Core.Path.{subst}
use coroutine_http_server.Prelude.{◌≡◌, ◌≢◌, refl, sym, ap, ◌∙◌, [], ◌++◌, List, Bytes, length}
use coroutine_http_server.Prelude.Result.{Result, ok}
use coroutine_http_server.Prelude.Decimal.{ℤ}
use coroutine_http_server.Http.Method.{http_method, invalid}
use coroutine_http_server.Http.HeaderBody.{Buffer, lift}
use coroutine_http_server.Http.HeaderBody.Buffered.{OnLines}
use coroutine_http_server.Http.HeaderBody.Sent.{IsSendable}
use coroutine_http_server.Http.Request.{Request, read_from, write_request}
use coroutine_http_server.Http.Request.Line.{IsWord}
use coroutine_http_server.Http.Request.Received.{read_from-write_request}
use coroutine_http_server.Http.Response.{Response, write_response, response_to_string}
use coroutine_http_server.Http.Response.Written.{write_response-to_string}
use coroutine_http_server.Http.Router.{Router}
use coroutine_http_server.Io.Outcome.{Outcome, done, throws, waits, exhausted, ◌>>=◌}
use coroutine_http_server.Io.IStream.Flow.{Flow, prepend}
use coroutine_http_server.Io.IStream.Lines.{Flows}
use coroutine_http_server.Io.OStream.{OStream, flush}
use coroutine_http_server.Io.OStream.Written.{IsValid, written}
use coroutine_http_server.Io.OStream.Session.{Call, texts, calls, session}
use coroutine_http_server.Io.OStream.Willing.{IsReady}
use coroutine_http_server.Server.Routes.{Reply}
use coroutine_http_server.Server.Handled.{served, caught, respond, attempt_buffer, handle_buffer}

bind_assoc :
    {A B C : Type 0} (m : Outcome A) (f : A → Outcome B) (k : B → Outcome C)
    → (m >>= λ a. f a >>= k) ≡ ((m >>= f) >>= k)
bind_assoc (done a) f k = refl
bind_assoc (throws x) f k = refl
bind_assoc waits f k = refl
bind_assoc exhausted f k = refl

-- Calls and a flush that end, and what is done with the stream.
rebind :
    {A : Type 0} (cs : List Call) (f f' : OStream) (k : OStream → Outcome A)
    → (calls cs f >>= flush) ≡ done f'
    → (calls cs f >>= λ g. flush g >>= k) ≡ k f'
rebind cs f f' k e = bind_assoc (calls cs f) flush k ∙ ap (λ m. m >>= k) e

module _ {D : Type 0} (status_message : ℤ → Bytes)
    (router : Router (Request → Result (Reply D))) where
  serve :
      (b b1 : Buffer) (f' : OStream) (req : Request) (res : Response)
      → read_from b ≡ done (b1, req)
      → respond status_message router req ≡ ok res
      → (calls (write_response status_message res []) b1.writer >>= flush) ≡ done f'
      → handle_buffer status_message router b ≡ served (record b1 { writer = f' })
  unfolding handle_buffer attempt_buffer
  serve b b1 f' req res got answer out =
      rw (got, ◌>>=◌, answer, lift)
        (ap caught (
          rebind (write_response status_message res []) b1.writer f'
            (λ g. done (record b1 { writer = g })) out))

  -- A client sends a request with a header at least and no body, in any pieces, with anything behind it:
  -- if its method is known, its method and target are words without spaces, its headers are sendable, no
  -- value of them has a carriage return, its route answers with a response, the stream to the client is
  -- valid, and the kernel takes at least a byte at each of as many wake-ups as the response has bytes, then the
  -- handler serves the client: it has taken exactly the request, and the kernel has what the stream held
  -- before and then the response as `to_string` writes it, all of it.
  pub handle_buffer-serves :
      (b : Buffer) (req : Request) (res : Response) (rest : Bytes) (w : Flow)
      → http_method req.method ≢ invalid
      → IsWord req.method
      → IsWord req.uri
      → IsSendable req.headers []
      → OnLines req.headers
      → req.body ≡ []
      → Flows b.reader (prepend (texts (write_request req []) ++ rest) w)
      → respond status_message router req ≡ ok res
      → IsValid b.writer
      → IsReady b.writer (length (response_to_string status_message res))
      → (b' : Buffer) × (handle_buffer status_message router b ≡ served b')
        × (b'.writer.sent ≡ written b.writer ++ response_to_string status_message res)
        × (b'.writer.end ≡ 0)
        × Flows b'.reader (prepend rest w)
  handle_buffer-serves b req res rest w known m u s l e h answer v ready =
      let (f, got, h') = read_from-write_request b req rest w known m u s l e h in
      let text = write_response-to_string status_message res in
      let (f', out, sent, empty) =
        session (write_response status_message res []) b.writer v
          (subst (λ t. IsReady b.writer (length t)) (sym text) ready) in
      (
        record { reader = f; writer = f' },
        serve b (record { reader = f; writer = b.writer }) f' req res got answer out,
        sent ∙ ap (λ t. written b.writer ++ t) text,
        empty,
        h',
      )
