-- ===== src/Tests/Router.antt =====
-- The router of test/http_route.cpp, with numbers for the handlers.
use coroutine_http_server.Prelude.{
  ℕ, Option, none, some, List, [], ◌∷◌, ◌≡◌, refl, codes, bytes_eq, starts_with, find, contains,
}
use coroutine_http_server.Prelude.Result.{ok}
use coroutine_http_server.UnorderedMap.{lookup, assign}
use coroutine_http_server.Utility.Compare.{equal}
use coroutine_http_server.Utility.Ctype.{tolower}
use coroutine_http_server.Http.Method.{get, post, any, http_method, method_eq}
use coroutine_http_server.Http.Uri.{from}
use coroutine_http_server.Http.Router.{
  Router, remove_query, squeeze, assign_exact, route, route_prefix, find_route_exact, find_route,
  route_by_name, route_prefix_by_name,
}
use coroutine_http_server.Http.Router.Trie.{new_node, split, insert, find_prefix}
use coroutine_http_server.Http.Router.Trie.Entries.{nonempty, entry}
use coroutine_http_server.Http.Router.Trie.Longest.{IsLongestMatch, find_prefix-IsLongestMatch}
use coroutine_http_server.Http.Router.Names.{by_name_diverges}
use coroutine_http_server.Http.Router.Registered.{
  Registration, exact, prefix, register_all, Holds, register_all-Holds,
}
use coroutine_http_server.Http.Router.Registered.Answers.{IsAnswer, find_route-IsAnswer}

abbrev registrations : List (Registration ℕ)
registrations = exact get (codes "/home") (some 2) ∷ prefix any (codes "/api") (some 1) ∷ []

abbrev built_trie : Router ℕ
built_trie = record {
  trie = insert new_node ([] ∷ codes "api" ∷ []) any (some 1);
  exact_matches = [];
}

abbrev built : Router ℕ
built = record built_trie { exact_matches = assign_exact (codes "/home") get (some 2) [] }

built_lem : register_all registrations ≡ ok built
unfolding register_all route route_prefix starts_with from bytes_eq contains find split remove_query
    squeeze
built_lem = refl

find_route_tests :
    (find_route get (codes "/home?x=1") built ≡ ok (some 2))
    × (find_route get (codes "/api/v1") built ≡ ok (some 1))
    × (find_route post (codes "/home") built ≡ ok none)
    × (find_route get (codes "//home") built ≡ ok none)
unfolding find_route starts_with remove_query find insert assign_exact assign lookup find_prefix
    split bytes_eq method_eq find_route_exact
find_route_tests = (refl, refl, refl, refl)

find_route-IsAnswer_example :
    (h : Option ℕ) × (find_route get (codes "/home?x=1") built ≡ ok h)
    × IsAnswer registrations get (remove_query (codes "/home?x=1")) h
unfolding starts_with
find_route-IsAnswer_example =
    find_route-IsAnswer registrations built get (codes "/home?x=1") built_lem refl

register_all-Holds_example : Holds registrations built
register_all-Holds_example = register_all-Holds registrations built built_lem

find_prefix-IsLongestMatch_example :
    IsLongestMatch
      (entry built.trie)
      get
      (nonempty ([] ∷ codes "api" ∷ codes "v1" ∷ []))
      (find_prefix built.trie ([] ∷ codes "api" ∷ codes "v1" ∷ []) get)
find_prefix-IsLongestMatch_example =
    find_prefix-IsLongestMatch built.trie ([] ∷ codes "api" ∷ codes "v1" ∷ []) get

by_name_diverges_example :
    (route_by_name 5 (codes "get") (codes "/") (some 1) built ≡ none)
    × (route_prefix_by_name 5 (codes "get") (codes "/") (some 1) built ≡ none)
unfolding http_method equal tolower
by_name_diverges_example = by_name_diverges (codes "get") (codes "/") (some 1) built 5 (λ e. cc e)
