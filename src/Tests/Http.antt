-- ===== src/Tests/Http.antt =====
-- test/http_parse_uri.cpp, and the theorems on methods, request targets and texts.
use coroutine_http_server.Prelude.{some, [], ◌∷◌, ◌≡◌, refl, arith, codes, bytes_eq, find, contains}
use coroutine_http_server.UnorderedMap.{assign}
use coroutine_http_server.Utility.Escape.{escape, escape_loop, escape_byte, escape_code}
use coroutine_http_server.Utility.Escape.RoundTrip.{unescape, unescape-escape}
use coroutine_http_server.Utility.Escape.Literal.{literal, literal-escape, read, step}
use coroutine_http_server.Http.Uri.{origin, invalid, from}
use coroutine_http_server.Http.Uri.RoundTrip.{from-write_query}

parse_uri_tests :
    (from (codes "/where?q=now&lang=en") ≡ record {
      type = origin;
      path = codes "/where";
      params = (codes "q", codes "now") ∷ (codes "lang", codes "en") ∷ [];
    })
    × (from (codes "/where?") ≡ record { type = invalid; path = []; params = [] })
    × (from (codes "/where?a&b=1&&=&") ≡ record {
      type = origin;
      path = codes "/where";
      params = (codes "b", codes "1") ∷ ([], []) ∷ [];
    })
unfolding from bytes_eq find contains assign
parse_uri_tests = (refl, refl, refl)

from-write_query_example : from (codes "/where?q=now&lang=en") ≡ record {
  type = origin;
  path = codes "/where";
  params = (codes "q", codes "now") ∷ (codes "lang", codes "en") ∷ [];
}
unfolding bytes_eq contains
from-write_query_example =
    from-write_query (codes "where") ((codes "q", codes "now") ∷ (codes "lang", codes "en") ∷ [])
      (refl, (refl, (refl, (refl, (refl, tt))))) (λ e. cc e)
      (
        ((refl, tt), (refl, tt), (refl, (refl, (refl, tt)))),
        (
          (
            (refl, (refl, (refl, (refl, tt)))),
            (refl, (refl, (refl, (refl, tt)))),
            (refl, (refl, tt)),
          ),
          tt,
        ),
      )
      ((refl, tt), (tt, tt)) refl

unescape-escape_example : unescape (escape (9 ∷ 200 ∷ [])) ≡ some (9 ∷ 200 ∷ [])
unescape-escape_example = unescape-escape (9 ∷ 200 ∷ []) (omega arith, (omega arith, tt))

literal-escape_example :
    literal (escape (9 ∷ 200 ∷ b'g' ∷ b'A' ∷ [])) ≡ some (9 ∷ 200 ∷ b'g' ∷ b'A' ∷ [])
literal-escape_example =
    literal-escape (9 ∷ 200 ∷ b'g' ∷ b'A' ∷ [])
      (omega arith, (omega arith, (omega arith, (omega arith, tt)))) (refl, (refl, (refl, tt)))

-- "\x01A" is one byte in a literal, and two for the reader of two digits.
greedy_digits : literal (escape (1 ∷ b'A' ∷ [])) ≡ some (26 ∷ [])
unfolding literal read step escape escape_loop escape_byte escape_code
greedy_digits = refl

two_digits : unescape (escape (1 ∷ b'A' ∷ [])) ≡ some (1 ∷ b'A' ∷ [])
two_digits = unescape-escape (1 ∷ b'A' ∷ []) (omega arith, (omega arith, tt))
