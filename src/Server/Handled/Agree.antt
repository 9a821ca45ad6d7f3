-- ===== src/Server/Handled/Agree.antt =====
-- The two servers, example/server_epoll_coro.cpp and example/server_blocking.cpp, on one request.
use coroutine_http_server.Prelude.{false, arith, ◌≡◌, sym, ◌∙◌, ap, [], ◌++◌, Bytes}
use coroutine_http_server.Prelude.Result.{Result, ok, throws}
use coroutine_http_server.Prelude.Decimal.{ℤ}
use coroutine_http_server.Http.Stdio.{Stdio, c_string}
use coroutine_http_server.Http.HeaderBody.{Buffer, lift}
use coroutine_http_server.Http.Request.{Request, cleared, read_from}
use coroutine_http_server.Http.Request.Plain.{read_from_stdio}
use coroutine_http_server.Http.Response.{Response, write_response, response_to_string}
use coroutine_http_server.Http.Response.Written.{write_response-to_string}
use coroutine_http_server.Http.Router.{Router}
use coroutine_http_server.Io.Outcome.{Outcome, done, throws, ◌>>=◌, >>=-eq-done}
use coroutine_http_server.Io.OStream.{OStream, flush}
use coroutine_http_server.Io.OStream.Written.{IsValid, written, flush-written}
use coroutine_http_server.Io.OStream.Session.{calls, calls-written}
use coroutine_http_server.Server.Routes.{Reply}
use coroutine_http_server.Server.Handled.{
  served, caught, respond, attempt_buffer, handle_buffer, handle_stdio,
}

caught-eq-served : {A : Type 0} (m : Outcome A) {a : A} → caught m ≡ served a → m ≡ done a
unfolding caught
caught-eq-served (done b) e = cc
caught-eq-served m e = ground arith

lift-eq-done : {A : Type 0} (r : Result A) {a : A} → lift r ≡ done a → r ≡ ok a
lift-eq-done (ok b) e = cc
lift-eq-done (throws x) e = cc

-- What stands behind a statement that has ended.
behind :
    {A B : Type 0} (m : Outcome A) (k : A → Outcome B) {a : A} {b : B}
    → m ≡ done a
    → (m >>= k) ≡ done b
    → k a ≡ done b
behind m k e h = sym (ap (λ n. n >>= k) e) ∙ h

module _ {D : Type 0} (status_message : ℤ → Bytes)
    (router : Router (Request → Result (Reply D))) where
  after_reading :
      (b1 b2 : Buffer) (req : Request)
      → IsValid b1.writer
      → (lift (respond status_message router req) >>= λ res.
          calls (write_response status_message res []) b1.writer >>= λ f.
          flush f >>= λ f'. done (record b1 { writer = f' }))
        ≡ done b2
      → (res : Response) × (respond status_message router req ≡ ok res)
        × (b2.writer.sent ≡ written b1.writer ++ response_to_string status_message res)
  after_reading b1 b2 req v e =
      let (res, r, e1) = >>=-eq-done (lift (respond status_message router req)) _ e in
      let (f, c, e2) = >>=-eq-done (calls (write_response status_message res []) b1.writer) _ e1 in
      let (f', fl, e3) = >>=-eq-done (flush f) _ e2 in
      let (v', w) = calls-written (write_response status_message res []) b1.writer f v c in
      let (_, sent, _, _) = flush-written f f' v' fl in
      let last : f' ≡ b2.writer = cc in
      (
        res,
        lift-eq-done (respond status_message router req) r,
        ap (λ (g : OStream). g.sent) (sym last)
            ∙ (sent
                ∙ (w
                    ∙ ap (λ t. written b1.writer ++ t)
                        (write_response-to_string status_message res))),
      )

  handle_buffer-served :
      (b b1 b2 : Buffer) (req : Request)
      → read_from b ≡ done (b1, req)
      → IsValid b1.writer
      → handle_buffer status_message router b ≡ served b2
      → (res : Response) × (respond status_message router req ≡ ok res)
        × (b2.writer.sent ≡ written b1.writer ++ response_to_string status_message res)
  unfolding handle_buffer attempt_buffer
  handle_buffer-served b b1 b2 req got v e =
      after_reading b1 b2 req v (behind (read_from b) _ got (caught-eq-served _ e))

  handle_stdio-served :
      (f f1 : Stdio) (req : Request) (s : Bytes)
      → read_from_stdio cleared f ≡ done (f1, req)
      → handle_stdio status_message router false false f ≡ served s
      → (res : Response) × (respond status_message router req ≡ ok res)
        × (s ≡ c_string (response_to_string status_message res))
  unfolding handle_stdio
  handle_stdio-served f f1 req s got e =
      let (res, r, e1) =
        >>=-eq-done (lift (respond status_message router req)) _
          (behind (read_from_stdio cleared f) _ got (caught-eq-served _ e)) in
      (res, lift-eq-done (respond status_message router req) r, cc)

  -- If both servers read the same request, with the same routes, and both serve it, then the server
  -- with coroutines has sent, behind what its stream held, a text of which the blocking server puts
  -- out the C string: the text up to its first NUL. The text is `to_string` of the response.
  pub servers_agree :
      (b b1 b2 : Buffer) (f f1 : Stdio) (req : Request) (s : Bytes)
      → read_from b ≡ done (b1, req)
      → read_from_stdio cleared f ≡ done (f1, req)
      → IsValid b1.writer
      → handle_buffer status_message router b ≡ served b2
      → handle_stdio status_message router false false f ≡ served s
      → (res : Response) × (respond status_message router req ≡ ok res)
        × (b2.writer.sent ≡ written b1.writer ++ response_to_string status_message res)
        × (s ≡ c_string (response_to_string status_message res))
  servers_agree b b1 b2 f f1 req s got got' v e e' =
      let (res, r, sent) = handle_buffer-served b b1 b2 req got v e in
      let (res', r', puts) = handle_stdio-served f f1 req s got' e' in
      let same : res' ≡ res = cc in
      (res, r, sent, puts ∙ ap (λ x. c_string (response_to_string status_message x)) same)
