-- ===== src/Server/Handled/Ends.antt =====
-- `handle_request` of example/server_epoll_coro.cpp ends: no loop in it uses up its fuel.
use coroutine_http_server.Prelude.{suc, inl, inr, [], Bytes, Option-cases}
use coroutine_http_server.Prelude.Result.{Result}
use coroutine_http_server.Prelude.Decimal.{ℤ, stoi}
use coroutine_http_server.Http.Headers.{Headers, find_header, content_length}
use coroutine_http_server.Http.HeaderBody
use coroutine_http_server.Http.HeaderBody.{
  Buffer, crlf, lift, read_headers, read_body, resize, trim_back,
}
use coroutine_http_server.Http.HeaderBody.Ends
use coroutine_http_server.Http.HeaderBody.Ends.{lift-IsFueled}
use coroutine_http_server.Http.Request.{Request, read_from, request_line}
use coroutine_http_server.Http.Response.{write_response}
use coroutine_http_server.Http.Router.{Router}
use coroutine_http_server.Io.Outcome.{
  IsFueled, Gives, >>=-Gives, done-Gives, >>=-IsFueled, done-IsFueled,
}
use coroutine_http_server.Io.IStream.{getline, available}
use coroutine_http_server.Io.IStream.Getchar
use coroutine_http_server.Io.IStream.Ends.{getline-EndsBelow}
use coroutine_http_server.Io.OStream.{OStream, puts, flush}
use coroutine_http_server.Io.OStream.Written
use coroutine_http_server.Io.OStream.Put.{puts-written}
use coroutine_http_server.Io.OStream.Session.{calls}
use coroutine_http_server.Io.OStream.Ends.{flush-IsFueled, calls-IsFueled}
use coroutine_http_server.Server.Routes.{Reply}
use coroutine_http_server.Server.Handled.{respond, attempt_buffer}

read_body-IsValid :
    (g : OStream) (headers : Headers)
    → Written.IsValid g
    → Gives (λ (p : OStream × Bytes). Written.IsValid p.0) (read_body g headers)
unfolding read_body
read_body-IsValid g headers v = elim (Option-cases (find_header content_length headers)) [
  | inl none_there ↦ rw (read_body, none_there) (done-Gives (λ p. Written.IsValid p.0) (g, []) v)
  | inr (value, there) ↦
      rw (read_body, there)
        (>>=-Gives _ (lift (stoi value)) _ λ len _. >>=-Gives _ (lift (resize len)) _ λ zeros _.
          >>=-Gives _ (puts zeros g) _ λ g' e.
            done-Gives (λ p. Written.IsValid p.0) (g', zeros) (puts-written zeros g g' v e).0)
]

headers_and_body-IsValid :
    (b : Buffer)
    → Written.IsValid b.writer
    → Gives (λ (p : Buffer × Headers × Bytes). Written.IsValid p.0.writer) (HeaderBody.read_from b)
unfolding HeaderBody.read_from
headers_and_body-IsValid b v =
    >>=-Gives _ (read_headers (suc (available b.reader)) b.reader []) _ λ (f, headers) _.
      >>=-Gives _ (read_body b.writer headers) _ λ (g, body) e.
        done-Gives (λ p. Written.IsValid p.0.writer) _
          (read_body-IsValid b.writer headers v (g, body) e)

read_from-IsValid :
    (b : Buffer)
    → Written.IsValid b.writer
    → Gives (λ (p : Buffer × Request). Written.IsValid p.0.writer) (read_from b)
unfolding read_from
read_from-IsValid b v = >>=-Gives _ (getline crlf b.reader) _ λ (line, f) _.
    >>=-Gives _ (lift (request_line [] [] (trim_back line))) _ λ _ _.
      >>=-Gives _ (HeaderBody.read_from (record { reader = f; writer = b.writer })) _ λ p e.
        done-Gives (λ p. Written.IsValid p.0.writer) _
          (headers_and_body-IsValid (record { reader = f; writer = b.writer }) v p e)

read_from-IsFueled :
    (b : Buffer) → Getchar.IsValid b.reader → Written.IsValid b.writer → IsFueled (read_from b)
unfolding read_from
read_from-IsFueled b v w =
    let (fueled, below) = getline-EndsBelow crlf b.reader v in
    >>=-IsFueled (getline crlf b.reader) _ fueled λ (line, f) e.
      let checked = request_line [] [] (trim_back line) in
      >>=-IsFueled (lift checked) _ (lift-IsFueled checked) λ _ _.
        >>=-IsFueled (HeaderBody.read_from (record { reader = f; writer = b.writer })) _
          (Ends.read_from-IsFueled (record { reader = f; writer = b.writer }) ((below line f e).0)
            w)
          λ _ _. done-IsFueled _

module _ {D : Type 0} (status_message : ℤ → Bytes)
    (router : Router (Request → Result (Reply D))) where
  -- Whatever a client sends and however the kernel takes what is written, over valid streams the `try`
  -- block of the handler ends, or throws, or waits for an event that does not come: the fuel of each of
  -- its loops is enough.
  pub attempt_buffer-IsFueled :
      (b : Buffer)
      → Getchar.IsValid b.reader
      → Written.IsValid b.writer
      → IsFueled (attempt_buffer status_message router b)
  unfolding attempt_buffer
  attempt_buffer-IsFueled b v w =
      >>=-IsFueled (read_from b) _ (read_from-IsFueled b v w) λ (b', req) e.
        let answer = respond status_message router req in
        >>=-IsFueled (lift answer) _ (lift-IsFueled answer) λ res _.
          let cs = write_response status_message res [] in
          >>=-IsFueled (calls cs b'.writer) _
            (calls-IsFueled cs b'.writer (read_from-IsValid b w (b', req) e))
            λ f _. >>=-IsFueled (flush f) _ (flush-IsFueled f) λ _ _. done-IsFueled _
