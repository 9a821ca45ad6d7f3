-- ===== src/Http/Router/Exact.antt =====
-- The table of exact routes of lib/include/http.hpp as a function from a key and a method to what is
-- registered there.
use coroutine_http_server.Prelude.{
  ◌&&◌, Option, none, some, List, [], ◌≡◌, refl, arith, Bytes, bytes_eq, bytes_eq_iff,
  if◌then◌else◌,
}
use coroutine_http_server.UnorderedMap.{bytes_key, lookup, assign}
use coroutine_http_server.UnorderedMap.Laws.{lookup-assign}
use coroutine_http_server.Http.Method.{HttpMethod, any, method_eq, method_key}
use coroutine_http_server.Http.Router.{
  Router, remove_query, assign_exact, or_empty, find_route_exact,
}
use coroutine_http_server.Http.Router.Trie.{Handler, Handlers}

module _ {H : Type 0} where
  unfoldable pub exact_entry : List (Bytes × Handlers H) → Bytes → HttpMethod → Option (Handler H)
  exact_entry exact key m = elim (lookup key exact) [ none ↦ none | some hs ↦ lookup m hs ]

  lookup_nil : (m : HttpMethod) → lookup {V = Handler H} m [] ≡ none
  unfolding lookup
  lookup_nil m = refl

  -- A registration is seen at its key and method, and nowhere else.
  pub exact_entry-assign_exact :
      (key key' : Bytes) (m m' : HttpMethod) (h : Handler H) (exact : List (Bytes × Handlers H))
      → exact_entry (assign_exact key m h exact) key' m'
        ≡ (if bytes_eq key key' && method_eq m m' then some h else exact_entry exact key' m')
  unfolding exact_entry assign_exact
  exact_entry-assign_exact key key' m m' h exact = ground (
    arith,
    bytes_eq_iff key key',
    lookup-assign key key' (assign m h (or_empty (lookup key exact))) exact,
    lookup-assign m m' h (or_empty (lookup key exact)),
    lookup_nil m',
  )

  -- The handler of an entry, or the null one.
  abbrev pub handler_of : Option (Handler H) → Option (Handler H) → Handler H
  handler_of (some h) _ = h
  handler_of none (some h) = h
  handler_of none none = none

  -- The exact match answers by the entry for the method, or the one for ANY.
  pub find_route_exact_lem :
      (m : HttpMethod) (uri : Bytes) (r : Router H)
      → find_route_exact m uri r
        ≡ handler_of
            (exact_entry r.exact_matches (remove_query uri) m)
            (exact_entry r.exact_matches (remove_query uri) any)
  unfolding find_route_exact exact_entry
  find_route_exact_lem m uri r = ground arith
