-- ===== src/Tests/Streamed.antt =====
-- Messages of lib/include/http.hpp over `AsyncFileStream`.
use coroutine_http_server.Prelude.{
  List, [], ◌∷◌, ◌++◌, ◌≡◌, refl, arith, Bytes, codes, ends_with, bytes_eq,
}
use coroutine_http_server.Prelude.Decimal.{ℤ, pos, to_string, digits}
use coroutine_http_server.Utility.Compare.{equal, less}
use coroutine_http_server.Utility.Ctype.{tolower, isspace, isalnum}
use coroutine_http_server.Http.Method.{http_method}
use coroutine_http_server.Http.Headers.{Headers, insert_or_assign}
use coroutine_http_server.Http.HeaderBody.{crlf, write_to, is_name, skip_spaces, trim_back}
use coroutine_http_server.Http.HeaderBody.Sent.{IsSendable, received}
use coroutine_http_server.Http.Request
use coroutine_http_server.Http.Request.{Request, line_of}
use coroutine_http_server.Http.Response
use coroutine_http_server.Http.Response.{Response}
use coroutine_http_server.Http.Streamed.{read_request, read_response, write_message}
use coroutine_http_server.Http.Streamed.Ends.{read_message-IsFueled}
use coroutine_http_server.Http.Streamed.Messages.{
  read_request-write_request, read_response-write_response,
}
use coroutine_http_server.Http.Streamed.Writes.{takes_all, write_message-texts}
use coroutine_http_server.Io.File.{has_bits}
use coroutine_http_server.Io.Outcome.{done, IsFueled}
use coroutine_http_server.Io.OStream.Session.{texts}
use coroutine_http_server.Io.Stream.{Getc, byte, again, Putc, taken, getline, print, whole}
use coroutine_http_server.Io.Stream.Delivers.{Delivers, rest, next, pause}
use coroutine_http_server.Io.Stream.Lines.{getline-Delivers}
use coroutine_http_server.Io.Stream.Prints.{print-kept}

-- A line with a carriage return in it, and a wait in front of its end.
abbrev waits_once : List Getc
waits_once = byte 65 ∷ byte 13 ∷ byte 66 ∷ byte 13 ∷ again 1 ∷ byte 10 ∷ byte 67 ∷ []

getline-Delivers_example : getline waits_once crlf ≡ done (whole (65 ∷ 13 ∷ 66 ∷ []), byte 67 ∷ [])
unfolding has_bits ends_with bytes_eq
getline-Delivers_example =
    getline-Delivers crlf (65 ∷ 13 ∷ 66 ∷ []) waits_once (byte 67 ∷ [])
      (next 65 (next 13 (next 66 (next 13 (pause 1 refl (next 10 (rest (byte 67 ∷ []))))))))
      (refl, (refl, (refl, (refl, (refl, tt)))))

-- The file is full in front of the second byte, which is lost.
print-kept_example :
    print (codes "abc") ((taken ∷ Putc.again 4 ∷ taken ∷ []) ++ []) ≡ done (whole 2, codes "ac", [])
unfolding has_bits
print-kept_example = print-kept (codes "abc") (taken ∷ Putc.again 4 ∷ taken ∷ []) [] (refl, tt)

abbrev headers : Headers
headers = (codes "Host", codes "a") ∷ []

headers-IsSendable : IsSendable headers (codes "hi")
unfolding is_name isalnum skip_spaces trim_back isspace equal tolower
headers-IsSendable = record {
  is_map = (tt, tt);
  are_fields = (
    record {
      name = refl;
      some_value = refl;
      one_line = (refl, tt);
      no_space_first = refl;
      no_space_last = refl;
    },
    tt,
  );
  no_length = (refl, tt);
  some_line = refl;
  fits = omega arith;
}

-- The bytes come without a wait.
abbrev sends : Bytes → List Getc
sends [] = []
sends (c ∷ s) = byte c ∷ sends s

sends-Delivers : (s : Bytes) → Delivers (sends s) s []
sends-Delivers [] = rest []
sends-Delivers (c ∷ s) = next c (sends-Delivers s)

abbrev reason : ℤ → Bytes
reason _ = codes "OK"

abbrev response : Response
response = record { status = pos 200; headers = headers; body = codes "hi" }

read_response-write_response_example :
    read_response (sends (texts (Response.write_response reason response [])))
    ≡ done ([], record response { headers = received headers (codes "hi") })
read_response-write_response_example =
    read_response-write_response reason response 200
      (sends (texts (Response.write_response reason response []))) [] refl (omega arith)
      (refl, (refl, tt)) headers-IsSendable
      (sends-Delivers (texts (Response.write_response reason response [])))

received_lem :
    received headers (codes "hi")
    ≡ (codes "Content-Length", codes "2") ∷ (codes "Host", codes "a") ∷ []
unfolding insert_or_assign less tolower to_string digits
received_lem = refl

abbrev request : Request
request = record { method = codes "POST"; uri = codes "/a"; headers = headers; body = codes "hi" }

read_request-write_request_example :
    read_request (sends (texts (Request.write_request request [])))
    ≡ done ([], record request { headers = received headers (codes "hi") })
unfolding http_method equal tolower isspace
read_request-write_request_example =
    read_request-write_request request (sends (texts (Request.write_request request []))) []
      (λ e. cc e) ((λ e. cc e), (refl, (refl, (refl, (refl, tt)))))
      ((λ e. cc e), (refl, (refl, tt))) headers-IsSendable
      (sends-Delivers (texts (Request.write_request request [])))

write_message-texts_example :
    write_message
      (line_of request [])
      headers
      (codes "hi")
      []
      (takes_all (line_of request [] ++ texts (write_to headers (codes "hi") [])) [])
    ≡ done (line_of request [] ++ texts (write_to headers (codes "hi") []), [])
write_message-texts_example = write_message-texts (line_of request []) headers (codes "hi") [] []

read_message-IsFueled_example :
    IsFueled (read_request waits_once) × IsFueled (read_response waits_once)
read_message-IsFueled_example = read_message-IsFueled waits_once
