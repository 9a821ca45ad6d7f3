-- ===== src/Tests/Server.antt =====
-- The servers, example/server_epoll_coro.cpp, example/server_blocking.cpp and example/router.hpp.
use mathlib.Core.List.{Perm}
use coroutine_http_server.Prelude.{
  ℕ, Bool, false, none, some, List, [], ◌∷◌, ◌++◌, ltb, ◌≡◌, refl, arith, if◌then◌else◌, Bytes,
  codes, bytes_eq, starts_with, find, contains, ends_with,
}
use coroutine_http_server.Prelude.Result.{
  Result, ok, throws, out_of_range, length_error, syscall_error,
}
use coroutine_http_server.Prelude.Decimal.{ℤ, stoll, to_string, digits}
use coroutine_http_server.UnorderedMap.{lookup, assign}
use coroutine_http_server.Http.Method.{get, method_eq, http_method}
use coroutine_http_server.Http.Request.{Request, parse_uri, cleared}
use coroutine_http_server.Http.Router.{
  Router, new_router, remove_query, find_route_by_name, find_route, find_route_exact, find_handler,
}
use coroutine_http_server.Http.Uri
use coroutine_http_server.Http.Stdio.{Stdio, fgets, c_string}
use coroutine_http_server.Http.Response.{
  Response, write_response, response_to_string, first_line, format_int,
}
use coroutine_http_server.Http.Request.PlainLines.{
  next_line, ensure_and_remove_crlf, plain_header, plain_body,
}
use coroutine_http_server.Http.Request.Plain.{read_from_stdio, plain_headers}
use coroutine_http_server.Io.OStream.Written.{written}
use coroutine_http_server.Io.OStream.Session.{calls, call}
use coroutine_http_server.Io.OStream
use coroutine_http_server.Http.HeaderBody.{
  Buffer, crlf, write_to, header_calls, append_string, trim_back, skip_spaces, read_headers,
  parse_header, is_name, read_body,
}
use coroutine_http_server.Http.Request.{read_from, request_line, extract, word}
use coroutine_http_server.Io.Outcome.{Outcome, done}
use coroutine_http_server.Io.File.{
  ready, takes, epollin, epollout, read, has_bits, read_file_best_effort, read_file_sync, write,
  write_file_best_effort, write_file_sync,
}
use coroutine_http_server.Io.IStream
use coroutine_http_server.Io.IStream.{istream, getline}
use coroutine_http_server.Utility.Ctype.{isspace, tolower, isalnum}
use coroutine_http_server.Utility.Compare.{equal, less}
use coroutine_http_server.Http.Headers.{insert_or_assign, find_header}
use coroutine_http_server.Http.HeaderBody
use coroutine_http_server.Io.OStream.{ostream, puts, flush, copy, can_write}
use coroutine_http_server.Io.Socket.{value, failed, socket_connect, socket_accept}
use coroutine_http_server.Server.Handled.{
  Handled, served, caught, respond, attempt_buffer, handle_buffer, handle_stdio,
}
use coroutine_http_server.Server.Handled.Agree.{servers_agree}
use coroutine_http_server.Server.Ports.{
  Attempt, binds, bind_fails, bound, search, search_from, min_port,
}
use coroutine_http_server.Server.Ports.Found.{Says, search-Says}
use coroutine_http_server.Server.Routes
use coroutine_http_server.Server.Routes.{Reply, Durations, create_router, html}
use coroutine_http_server.Server.Spawned.{spawn_task, sweep, swap_pop, move_last}
use coroutine_http_server.Server.Spawned.Laws.{running, spawn_task-running}

-- The ports below 9003 are taken.
abbrev taken_below : ℕ → Attempt
taken_below port = if ltb port 9003 then bind_fails else binds

search-Says_example : Says taken_below min_port (search taken_below)
search-Says_example = search-Says taken_below

search_lem : search taken_below ≡ bound 9003
unfolding search search_from
search_lem = refl

-- The tasks above 5 are done.
abbrev above_5 : ℕ → Bool
above_5 n = ltb 5 n

spawn_task-running_example :
    (tasks' : List ℕ) × (spawn_task above_5 4 (1 ∷ 7 ∷ 2 ∷ 3 ∷ 8 ∷ []) ≡ some (tasks' ++ 4 ∷ []))
    × Perm tasks' (running above_5 (1 ∷ 7 ∷ 2 ∷ 3 ∷ 8 ∷ []))
spawn_task-running_example = spawn_task-running above_5 4 (1 ∷ 7 ∷ 2 ∷ 3 ∷ 8 ∷ [])

spawn_task_lem : spawn_task above_5 4 (1 ∷ 7 ∷ 2 ∷ 3 ∷ 8 ∷ []) ≡ some (1 ∷ 3 ∷ 2 ∷ 4 ∷ [])
unfolding spawn_task sweep swap_pop move_last
spawn_task_lem = refl

-- Durations that are not negative.
abbrev durations : Durations ℕ
durations = record { stod = λ s. ok 1; is_negative = λ d. false; is_positive = λ d. ltb 0 d }

abbrev requests : Bytes → Request
requests uri = record { method = codes "GET"; uri = uri; headers = []; body = [] }

repeat_lem :
    Routes.repeat durations (requests (codes "/repeat?count=3"))
    ≡ ok (record { sleep = none; response = html (codes "@@@") })
unfolding Routes.repeat parse_uri Uri.from Uri.add_param lookup stoll assign find contains bytes_eq
repeat_lem = refl

repeat_negative :
    Routes.repeat durations (requests (codes "/repeat?count=-1"))
    ≡ throws (length_error "basic_string::_M_replace_aux")
unfolding Routes.repeat parse_uri Uri.from Uri.add_param lookup stoll assign find contains bytes_eq
repeat_negative = refl

sleep_missing :
    Routes.sleep durations (requests (codes "/sleep")) ≡ throws (out_of_range "unordered_map::at")
unfolding Routes.sleep parse_uri Uri.from lookup find contains bytes_eq
sleep_missing = refl

abbrev reason : ℤ → Bytes
reason _ = codes "OK"

abbrev text : Bytes
text = codes "GET / HTTP/1.1" ++ (crlf ++ (codes "a:b" ++ (crlf ++ crlf)))

-- A router with one route.
abbrev router : Router (Request → Result (Reply ℕ))
router = record new_router {
  exact_matches = (codes "/", (get, some (Routes.root durations)) ∷ []) ∷ [];
}

abbrev stdio : Stdio
stdio = record { unread = text; has_error = false }

abbrev client : Buffer
client = record {
  reader = istream 32 (record { mask = epollin; call = ready text } ∷ []);
  writer = ostream 64 (record { mask = epollout; call = takes 99 } ∷ []);
}

abbrev req : Request
req = record {
  method = codes "GET";
  uri = codes "/";
  headers = (codes "a", codes "b") ∷ [];
  body = [];
}

abbrev first_of : Outcome (Buffer × Request) → Buffer
first_of (done p) = p.0
first_of _ = client

abbrev served_of : {A : Type 0} → Handled A → A → A
served_of (served a) b = a
served_of _ b = b

abbrev client_read : Buffer
client_read = first_of (read_from client)

abbrev client_served : Buffer
client_served = served_of (handle_buffer reason router client) client

abbrev puts_text : Bytes
puts_text = served_of (handle_stdio reason router false false stdio) []

read_lem : read_from client ≡ done (client_read, req)
unfolding read_from getline IStream.getline_from IStream.match_eol IStream.getchar IStream.refill
    read has_bits read_file_best_effort read_file_sync request_line extract word ends_with trim_back
    isspace bytes_eq method_eq http_method equal skip_spaces tolower HeaderBody.read_from
    read_headers parse_header find is_name isalnum insert_or_assign find_header less read_body
read_lem = refl

stdio_lem : read_from_stdio cleared stdio ≡ done (record { unread = []; has_error = false }, req)
unfolding read_from_stdio request_line fgets find_header less equal http_method next_line
    ensure_and_remove_crlf c_string ends_with bytes_eq method_eq skip_spaces isspace tolower
    plain_headers plain_header find is_name isalnum plain_body insert_or_assign
stdio_lem = refl

buffer_served : handle_buffer reason router client ≡ served client_served
unfolding handle_buffer attempt_buffer read_from getline IStream.getline_from IStream.match_eol
    IStream.getchar IStream.refill read has_bits read_file_best_effort read_file_sync request_line
    extract word ends_with trim_back isspace bytes_eq method_eq http_method equal skip_spaces
    tolower HeaderBody.read_from read_headers parse_header find is_name isalnum insert_or_assign
    find_header less read_body caught respond find_route_by_name find_route remove_query starts_with
    find_route_exact lookup find_handler Routes.root calls call write_response first_line write_to
    header_calls puts flush OStream.write_buffer OStream.write_all write to_string digits format_int
    can_write copy write_file_best_effort write_file_sync
buffer_served = refl

stdio_served : handle_stdio reason router false false stdio ≡ served puts_text
unfolding handle_stdio read_from_stdio request_line fgets find_header less equal http_method
    next_line ensure_and_remove_crlf c_string ends_with bytes_eq method_eq skip_spaces isspace
    tolower plain_headers plain_header find is_name isalnum plain_body insert_or_assign caught
    respond find_route_by_name find_route remove_query starts_with find_route_exact lookup
    find_handler Routes.root response_to_string append_string first_line to_string digits format_int
stdio_served = refl

servers_agree_example :
    (res : Response) × (respond reason router req ≡ ok res)
    × (client_served.writer.sent ≡ written client_read.writer ++ response_to_string reason res)
    × (puts_text ≡ c_string (response_to_string reason res))
unfolding read_from getline IStream.getline_from IStream.match_eol IStream.getchar IStream.refill
    read has_bits read_file_best_effort read_file_sync request_line extract word ends_with trim_back
    isspace bytes_eq method_eq http_method equal skip_spaces tolower HeaderBody.read_from
    read_headers parse_header find is_name isalnum insert_or_assign find_header less read_body
servers_agree_example =
    servers_agree reason router client client_read client_served stdio
      (record { unread = []; has_error = false }) req puts_text read_lem stdio_lem
      (record { in_bounds = omega arith; sized = refl; roomy = omega arith }) buffer_served
      stdio_served

-- A connection that is in progress, and then refused.
connect_refused :
    socket_connect (failed 115) (4 ∷ []) (value 111)
    ≡ Outcome.throws (syscall_error "getsockopt SO_ERROR")
unfolding socket_connect
connect_refused = refl

accepts_lem : socket_accept (1 ∷ 1 ∷ []) (value 7) ≡ done (7, 1 ∷ [])
unfolding socket_accept
accepts_lem = refl
