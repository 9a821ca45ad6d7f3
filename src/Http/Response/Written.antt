-- ===== src/Http/Response/Written.antt =====
-- The writers of `HTTPResponse`, of lib/include/http.hpp: the coroutine against `to_string`.
use coroutine_http_server.Prelude.{◌≡◌, sym, [], Bytes}
use coroutine_http_server.Prelude.Decimal.{ℤ}
use coroutine_http_server.Http.HeaderBody.Written.{write_to-append_string}
use coroutine_http_server.Http.Response.{Response, first_line, write_response, response_to_string}
use coroutine_http_server.Io.OStream.Session.{texts}

-- For every table of reason phrases and every response, the coroutine that writes the response without
-- a line prefix puts on the stream the bytes of `to_string`, which the blocking server sends.
pub write_response-to_string :
    (status_message : ℤ → Bytes) (res : Response)
    → texts (write_response status_message res []) ≡ response_to_string status_message res
unfolding write_response response_to_string
write_response-to_string status_message res =
    sym (write_to-append_string (first_line status_message res []) res.headers res.body)
