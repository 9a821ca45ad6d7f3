-- ===== src/Tests/Served.antt =====
-- A client that `handle_request` of example/server_epoll_coro.cpp serves.
use coroutine_http_server.Prelude.{
  ℕ, zero, suc, ◌≡◌, refl, arith, none, some, [], ◌∷◌, ◌++◌, replicate, All, Bytes, codes, take,
  drop, starts_with, bytes_eq, find,
}
use coroutine_http_server.Prelude.Result.{Result, ok}
use coroutine_http_server.Prelude.Decimal.{ℤ, pos, to_string, digits}
use coroutine_http_server.UnorderedMap.{lookup}
use coroutine_http_server.Utility.Ctype.{isspace, tolower, isalnum}
use coroutine_http_server.Utility.Compare.{equal}
use coroutine_http_server.Http.Method.{get, method_eq, http_method}
use coroutine_http_server.Http.HeaderBody.{
  Buffer, is_name, skip_spaces, trim_back, write_to, header_calls, append_string,
}
use coroutine_http_server.Http.HeaderBody.Sent.{IsSendable}
use coroutine_http_server.Http.Request.{Request, write_request, line_of}
use coroutine_http_server.Http.Response.{Response, response_to_string, first_line, format_int}
use coroutine_http_server.Http.Router.{
  Router, new_router, remove_query, find_route_by_name, find_route, find_route_exact, find_handler,
}
use coroutine_http_server.Io.File.{Writable, ready, takes, epollin, epollout, has_bits}
use coroutine_http_server.Io.IStream.{istream}
use coroutine_http_server.Io.IStream.Flow.{prepend, none_left, silence, kernel_flow}
use coroutine_http_server.Io.IStream.Lines.{Flows}
use coroutine_http_server.Io.OStream.{ostream}
use coroutine_http_server.Io.OStream.Written.{written}
use coroutine_http_server.Io.OStream.Session.{texts}
use coroutine_http_server.Io.OStream.Willing.{IsWilling}
use coroutine_http_server.Io.Outcome.{IsFueled}
use coroutine_http_server.Server.Handled.{served, respond, attempt_buffer, handle_buffer}
use coroutine_http_server.Server.Handled.Ends.{attempt_buffer-IsFueled}
use coroutine_http_server.Server.Handled.Serves.{handle_buffer-serves}
use coroutine_http_server.Server.Routes.{Reply}

abbrev reason : ℤ → Bytes
reason _ = codes "OK"

abbrev response : Response
response = record { status = pos 200; headers = []; body = [] }

-- A router with one route.
abbrev router : Router (Request → Result (Reply ℕ))
router = record new_router {
  exact_matches =
      (codes "/", (get, some (λ req. ok (record { sleep = none; response = response }))) ∷ []) ∷ [];
}

abbrev request : Request
request = record {
  method = codes "GET";
  uri = codes "/";
  headers = (codes "a", codes "b") ∷ [];
  body = [];
}

abbrev text : Bytes
text = texts (write_request request [])

-- The kernel takes a byte at a time.
abbrev one_byte : Writable
one_byte = record { mask = epollout; call = takes 1 }

replicate-IsWilling : (n : ℕ) → All IsWilling (replicate n one_byte)
unfolding has_bits
replicate-IsWilling zero = tt
replicate-IsWilling (suc n) = ((refl, refl, (0, refl)), replicate-IsWilling n)

-- The request in two pieces, and a byte behind it.
abbrev client : Buffer
client = record {
  reader = istream 8 (
      record { mask = epollin; call = ready (take 10 text) }
      ∷ record { mask = epollin; call = ready (drop 10 text ++ 90 ∷ []) }
      ∷ []);
  writer = ostream 8 (replicate 19 one_byte);
}

request-IsSendable : IsSendable request.headers []
unfolding is_name isalnum skip_spaces trim_back isspace equal tolower
request-IsSendable = record {
  is_map = (tt, tt);
  are_fields = (
    record {
      name = refl;
      some_value = refl;
      one_line = (refl, tt);
      no_space_first = refl;
      no_space_last = refl;
    },
    tt,
  );
  no_length = (refl, tt);
  some_line = refl;
  fits = omega arith;
}

client-Flows : Flows client.reader (prepend (text ++ 90 ∷ []) (none_left silence))
unfolding kernel_flow has_bits write_request line_of write_to header_calls
client-Flows = record {
  valid = record {
    ordered = omega arith;
    in_bounds = omega arith;
    sized = refl;
    roomy = omega arith;
  };
  gives = refl;
}

answers : respond reason router request ≡ ok response
unfolding respond find_route_by_name find_route remove_query find_route_exact lookup find_handler
    http_method method_eq starts_with bytes_eq find equal tolower
answers = refl

handle_buffer-serves_example :
    (b' : Buffer) × (handle_buffer reason router client ≡ served b')
    × (b'.writer.sent ≡ written client.writer ++ response_to_string reason response)
    × (b'.writer.end ≡ 0)
    × Flows b'.reader (prepend (90 ∷ []) (none_left silence))
unfolding http_method equal tolower isspace response_to_string append_string first_line to_string
    digits format_int
handle_buffer-serves_example =
    handle_buffer-serves reason router client request response (90 ∷ []) (none_left silence)
      (λ e. cc e) ((λ e. cc e), (refl, (refl, (refl, tt)))) ((λ e. cc e), (refl, tt))
      request-IsSendable ((refl, tt), tt) refl client-Flows answers
      (record { in_bounds = omega arith; sized = refl; roomy = omega arith })
      (replicate-IsWilling 19, omega arith)

attempt_buffer-IsFueled_example : IsFueled (attempt_buffer reason router client)
attempt_buffer-IsFueled_example =
    attempt_buffer-IsFueled reason router client
      (record { ordered = omega arith; in_bounds = omega arith; sized = refl; roomy = omega arith })
      (record { in_bounds = omega arith; sized = refl; roomy = omega arith })
