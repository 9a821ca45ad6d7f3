-- ===== src/Server/Handled.antt =====
-- `handle_request` of example/server_epoll_coro.cpp and of example/server_blocking.cpp. What `fputs` and
-- `fcntl` return is given.
pub mod Agree
pub mod Ends
pub mod Serves
use coroutine_http_server.Prelude.{Bool, not, none, some, [], Bytes, codes, if◌then◌else◌}
use coroutine_http_server.Prelude.Result.{Exception, Result, ok, eof_exception, syscall_error}
use coroutine_http_server.Prelude.Result
use coroutine_http_server.Prelude.Decimal.{ℤ, pos}
use coroutine_http_server.Http.Stdio.{Stdio, c_string}
use coroutine_http_server.Http.Headers.{insert_or_assign}
use coroutine_http_server.Http.HeaderBody.{Buffer, lift}
use coroutine_http_server.Http.Request.{Request, cleared, read_from}
use coroutine_http_server.Http.Request.Plain.{read_from_stdio}
use coroutine_http_server.Http.Response.{Response, write_response, response_to_string}
use coroutine_http_server.Http.Router.{Router, find_route_by_name}
use coroutine_http_server.Io.Outcome.{Outcome, done, throws, waits, exhausted, ◌>>=◌}
use coroutine_http_server.Io.OStream.{flush}
use coroutine_http_server.Io.OStream.Session.{calls}
use coroutine_http_server.Server.Routes.{Reply}

abbrev pub not_found : Response
not_found = record {
  status = pos 404;
  headers = insert_or_assign (codes "Content-Type") (codes "application/json") [];
  body = codes "{ \"message\": \"Cannot find a route.\" }";
}

-- How a handler of a request ends: the client is served; or an `EOFException` is caught, and ignored; or
-- another exception is caught, and printed. Or it waits for good.
pub data Handled (A : Type 0) : Type 0 where
  served : A → Handled A
  ignored : Handled A
  printed : Exception → Handled A
  waiting : Handled A

-- The handlers of exceptions; the reader has fuel enough.
unfoldable pub caught : {A : Type 0} → Outcome A → Handled A
caught (done a) = served a
caught (throws (eof_exception s)) = ignored
caught (throws e) = printed e
caught waits = waiting
caught exhausted = waiting

module _ {D : Type 0} (status_message : ℤ → Bytes)
    (router : Router (Request → Result (Reply D))) where
  -- The response to a request: that of its route, or 404.
  unfoldable pub respond : Request → Result Response
  respond req = Result.◌>>=◌ (find_route_by_name req.method req.uri router) λ handler.
      elim handler [
        | none ↦ ok not_found
        | some h ↦ Result.◌>>=◌ (h req) λ (reply : Reply D). ok reply.response
      ]

  -- The `try` block of the server with coroutines.
  unfoldable pub attempt_buffer : Buffer → Outcome Buffer
  unfolding respond
  attempt_buffer b = do
    (b', req) ← read_from b
    res ← lift (respond req)
    f ← calls (write_response status_message res []) b'.writer
    f' ← flush f
    done (record b' { writer = f' })

  -- The server with coroutines.
  unfoldable pub handle_buffer : Buffer → Handled Buffer
  unfolding caught attempt_buffer
  handle_buffer b = caught (attempt_buffer b)

  -- The blocking server, which puts out a C string: the bytes that it puts out.
  unfoldable pub handle_stdio : Bool → Bool → Stdio → Handled Bytes
  unfolding caught respond
  handle_stdio puts_fails fcntl_fails f = caught (do
    (f', req) ← read_from_stdio cleared f
    res ← lift (respond req)
    (if puts_fails
        then throws (syscall_error "write (fputs)")
        else if fcntl_fails
        then throws (syscall_error "possible broken pipe")
        else done (c_string (response_to_string status_message res))))
