-- ===== src/Server/Routes.antt =====
-- `create_router` of example/router.hpp. `std::stod`, and what its result is compared with, are
-- parameters.
use coroutine_http_server.Prelude.{
  Bool, Option, none, some, [], Bytes, codes, replicate, if◌then◌else◌,
}
use coroutine_http_server.Prelude.Result.{
  Result, ok, throws, runtime_error, out_of_range, length_error, ◌>>=◌,
}
use coroutine_http_server.Prelude.Decimal.{ℤ, pos, negsuc, stoll}
use coroutine_http_server.UnorderedMap.{bytes_key, lookup}
use coroutine_http_server.Http.Method.{get}
use coroutine_http_server.Http.Headers.{insert_or_assign}
use coroutine_http_server.Http.Request.{Request, parse_uri}
use coroutine_http_server.Http.Response.{Response}
use coroutine_http_server.Http.Router.{Router, new_router, route}
use coroutine_http_server.Http.Uri.{Params}

-- What a route gives: the time for which it sleeps first, and the response.
pub record Reply (D : Type 0) : Type 0 where
  pub sleep : Option D
  pub response : Response

-- `uri.params.at(key)`
unfoldable pub at : Bytes → Params → Result Bytes
at key params = elim (lookup key params) [
  | none ↦ throws (out_of_range "unordered_map::at")
  | some v ↦ ok v
]

abbrev pub html : Bytes → Response
html body = record {
  status = pos 200;
  headers = insert_or_assign (codes "Content-Type") (codes "text/html") [];
  body = body;
}

abbrev pub hello : Bytes
hello = codes "<h1>Hello, World!</h1>"

-- `res.body.assign(cnt, '@')`: a negative count is too large a `std::size_t`.
unfoldable pub assign_at : ℤ → Result Bytes
assign_at (pos n) = ok (replicate n b'@')
assign_at (negsuc n) = throws (length_error "basic_string::_M_replace_aux")

-- What the program does with a `double`.
pub record Durations (D : Type 0) : Type 0 where
  pub stod : Bytes → Result D
  -- `ms < 0` and `ms > 0`
  pub is_negative : D → Bool
  pub is_positive : D → Bool

module _ {D : Type 0} (durations : Durations D) where
  -- The route of `/`.
  unfoldable pub root : Request → Result (Reply D)
  root req = ok (record {
    sleep = none;
    response = record {
      status = pos 302;
      headers = insert_or_assign (codes "Location") (codes "/home") [];
      body = [];
    };
  })

  -- The route of `/home`.
  unfoldable pub home : Request → Result (Reply D)
  home req = ok (record { sleep = none; response = html hello })

  -- The route of `/sleep`.
  unfoldable pub sleep : Request → Result (Reply D)
  unfolding at
  sleep req = do
    text ← at (codes "ms") (parse_uri req).params
    ms ← durations.stod text
    (if durations.is_negative ms
        then throws (runtime_error "Negative sleep duration is not allowed.\n")
        else ok (record {
          sleep = if durations.is_positive ms then some ms else none;
          response = html hello;
        }))

  -- The route of `/repeat`.
  unfoldable pub repeat : Request → Result (Reply D)
  unfolding at assign_at
  repeat req = do
    text ← at (codes "count") (parse_uri req).params
    cnt ← stoll text
    body ← assign_at cnt
    ok (record { sleep = none; response = html body })

  unfoldable pub create_router : Result (Router (Request → Result (Reply D)))
  create_router = do
    r ← route get (codes "/") (some root) new_router
    r' ← route get (codes "/home") (some home) r
    r'' ← route get (codes "/sleep") (some sleep) r'
    route get (codes "/repeat") (some repeat) r''
