-- ===== src/Http/Router.antt =====
-- `HTTPRouter` of lib/include/http.hpp: the table of exact routes and the trie of prefix routes. The
-- nodes and the loops over them are in Trie. An overload that takes the method by name is `…_by_name`.
pub mod Trie
pub mod Keys
pub mod Exact
pub mod Prefix
pub mod Names
pub mod Registered
use Prim.Native.String.{String}
use coroutine_http_server.Prelude.{
  ℕ, zero, suc, Bool, true, false, not, ◌&&◌, Option, none, some, List, [], ◌∷◌, ◌++◌, ◌==◌,
  if◌then◌else◌, Bytes, codes, find, starts_with, back, take,
}
use coroutine_http_server.Prelude.Result.{Result, ok, throws, runtime_error}
use coroutine_http_server.UnorderedMap.{bytes_key, lookup, assign}
use coroutine_http_server.Http.Method.{
  HttpMethod, invalid, any, method_eq, method_key, http_method, valid_http_method,
}
use coroutine_http_server.Http.Uri.{TargetType, origin, ParsedUri, from}
use coroutine_http_server.Http.Router.Trie.{
  Handler, Handlers, Node, new_node, split, insert, find_prefix,
}

pub record Router (H : Type 0) : Type 0 where
  pub trie : Node H
  pub exact_matches : List (Bytes × Handlers H)

-- `if (auto pos = uri.find('?'); pos != npos) uri = uri.substr(0, pos)`
unfoldable pub remove_query : Bytes → Bytes
remove_query uri = elim (find b'?' uri) [ none ↦ uri | some pos ↦ take pos uri ]

-- The loop that drops a slash behind a slash.
unfoldable pub squeeze : ℕ → Bytes → Bytes
squeeze last [] = []
squeeze last (ch ∷ uri) = elim (last == b'/' && ch == b'/') [
  | true ↦ squeeze last uri
  | false ↦ ch ∷ squeeze ch uri
]

abbrev pub slash : Bytes
slash = codes "/"

abbrev pub is_origin : TargetType → Bool
is_origin origin = true
is_origin _ = false

abbrev pub ends_with_slash : Bytes → Bool
ends_with_slash uri = elim (back uri) [ none ↦ false | some c ↦ c == b'/' ]

module _ {H : Type 0} where
  -- A router as it is constructed.
  abbrev pub new_router : Router H
  new_router = record { trie = new_node; exact_matches = [] }

  abbrev pub or_empty : Option (Handlers H) → Handlers H
  or_empty none = []
  or_empty (some hs) = hs

  -- `exact_matches[s][method] = handler`
  unfoldable pub assign_exact :
      Bytes → HttpMethod → Handler H → List (Bytes × Handlers H) → List (Bytes × Handlers H)
  assign_exact s method handler exact =
      assign s (assign method handler (or_empty (lookup s exact))) exact

  unfoldable pub route : HttpMethod → Bytes → Handler H → Router H → Result (Router H)
  unfolding remove_query squeeze assign_exact
  route method uri handler r =
      if not (starts_with uri slash)
      then throws (runtime_error "uri does not start with /: uri: ")
      else (let s = squeeze 0 (remove_query uri) in
          ok (record r { exact_matches = assign_exact s method handler r.exact_matches }))

  -- The checks of `route_prefix` behind that of the kind, on the parameters of the uri.
  unfoldable pub insert_checked :
      List (Bytes × Bytes) → HttpMethod → Bytes → Handler H → Router H → Result (Router H)
  insert_checked (_ ∷ _) method uri handler r =
      throws (runtime_error "route entry cannot contain params: ")
  insert_checked [] method uri none r = throws (runtime_error "handler cannot be empty!\n")
  insert_checked [] method uri (some h) r =
      ok (record r { trie = insert r.trie (split [] uri) method (some h) })

  -- The source builds an exception for a method that is not valid, and does not throw it.
  unfoldable pub route_prefix : HttpMethod → Bytes → Handler H → Router H → Result (Router H)
  unfolding insert_checked
  route_prefix method uri handler r =
      if not (starts_with uri slash)
      then throws (runtime_error "path should start with '/': ")
      else (let parsed_uri = from uri in
          if not (is_origin parsed_uri.type)
          then throws (runtime_error "invalid path: ")
          else insert_checked parsed_uri.params method uri handler r)

  -- The overload of `route` by name calls itself, since its arguments fit it best. The fuel counts
  -- the calls; `none` means that it ran out.
  unfoldable pub route_by_name :
      ℕ → Bytes → Bytes → Handler H → Router H → Option (Result (Router H))
  route_by_name zero method uri handler r = none
  route_by_name (suc fuel) method uri handler r =
      let again = route_by_name fuel method uri handler r in
      if method_eq (http_method method) invalid
      then some (throws (runtime_error "invalid HTTP method: "))
      else again

  -- So does the overload of `route_prefix`.
  unfoldable pub route_prefix_by_name :
      ℕ → Bytes → Bytes → Handler H → Router H → Option (Result (Router H))
  route_prefix_by_name zero method uri handler r = none
  route_prefix_by_name (suc fuel) method uri handler r =
      let again = route_prefix_by_name fuel method uri handler r in
      if method_eq (http_method method) invalid
      then some (throws (runtime_error "invalid HTTP method: "))
      else again

  -- The handler for the method, or for ANY, or the null one.
  unfoldable pub find_handler : HttpMethod → Handlers H → Handler H
  find_handler m hs = elim (lookup m hs) [
    | some h ↦ h
    | none ↦ elim (lookup any hs) [ some h ↦ h | none ↦ none ]
  ]

  -- The key `s` that the source builds here is not used.
  unfoldable pub find_route_exact : HttpMethod → Bytes → Router H → Handler H
  unfolding remove_query find_handler
  find_route_exact m uri r = elim (lookup (remove_query uri) r.exact_matches) [
    | none ↦ none
    | some hs ↦ find_handler m hs
  ]

  -- Behind the exact match: the same uri with a slash, and then the prefixes.
  unfoldable pub find_route_rest : HttpMethod → Bytes → Router H → Handler H
  find_route_rest method uri r =
      elim (if not (ends_with_slash uri) then find_route_exact method (uri ++ slash) r else none) [
        | some h ↦ some h
        | none ↦ find_prefix r.trie (split [] uri) method
      ]

  -- Here too the exception for a method that is not valid is not thrown.
  unfoldable pub find_route : HttpMethod → Bytes → Router H → Result (Handler H)
  unfolding find_route_rest
  find_route method uri r =
      if not (starts_with uri slash)
      then throws (runtime_error "path should start with '/': ")
      else (let path = remove_query uri in
          ok (elim (find_route_exact method path r) [
            | some h ↦ some h
            | none ↦ find_route_rest method path r
          ]))

  unfoldable pub find_route_by_name : Bytes → Bytes → Router H → Result (Handler H)
  find_route_by_name method uri r = find_route (http_method method) uri r
