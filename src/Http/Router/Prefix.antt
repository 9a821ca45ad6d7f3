-- ===== src/Http/Router/Prefix.antt =====
-- `route_prefix` of lib/include/http.hpp: the uris that it accepts.
use mathlib.Core.Path.{subst}
use mathlib.Core.Logic.{◌⊎◌}
use coroutine_http_server.Prelude.{
  true, false, none, [], ◌∷◌, ◌≡◌, ◌≢◌, ◌↔◌, arith, Bytes, find, contains, starts_with, Lacks,
  find-Lacks, Bool-cases, inl, inr, sym, bytes_eq,
}
use coroutine_http_server.Prelude.Result.{ok}
use coroutine_http_server.Http.Method.{HttpMethod}
use coroutine_http_server.Http.Uri.{origin, from, from_origin, scheme_mark}
use coroutine_http_server.Http.Uri.Kinds.{from-type_iff, from-Splits, Splits}
use coroutine_http_server.Http.Router.{Router, slash, route_prefix}
use coroutine_http_server.Http.Router.Trie.{Handler, split, insert}

-- A uri that names a route: it begins with a slash and has neither a query nor a scheme.
abbrev pub IsRoutePath : Bytes → Type 0
IsRoutePath uri =
    (starts_with uri slash ≡ true) × (contains scheme_mark uri ≡ false) × (find b'?' uri ≡ none)

from-IsRoutePath :
    (uri : Bytes) → IsRoutePath uri → ((from uri).type ≡ origin) × ((from uri).params ≡ [])
unfolding from from_origin starts_with find bytes_eq
from-IsRoutePath [] h = cc
from-IsRoutePath (c ∷ s) h = ground arith

IsRoutePath-from :
    (uri : Bytes)
    → starts_with uri slash ≡ true
    → (from uri).type ≡ origin
    → (from uri).params ≡ []
    → IsRoutePath uri
IsRoutePath-from uri s t p =
    let (lacks, splits) = from-Splits uri t in
    (s, no_scheme (Bool-cases (contains scheme_mark uri)), find-Lacks b'?' uri (whole lacks splits))
  where
    no_scheme :
        (contains scheme_mark uri ≡ true) ⊎ (contains scheme_mark uri ≡ false)
        → contains scheme_mark uri ≡ false
    no_scheme (inl e) = cc ((from-type_iff uri).1.1 e)
    no_scheme (inr e) = e

    whole :
        Lacks b'?' (from uri).path → Splits uri (from uri).path (from uri).params → Lacks b'?' uri
    whole l (inl (same, _)) = subst (Lacks b'?') (sym same) l
    whole l (inr (_, _, some_param)) = absurd (some_param p)

module _ {H : Type 0} where
  -- `route_prefix` succeeds exactly on a uri that begins with a slash and has no query and no "://",
  -- with a handler that is not null, whatever the method; then the handler is inserted in the trie
  -- under the components of the uri and nothing else changes.
  pub route_prefix_iff :
      (m : HttpMethod) (uri : Bytes) (h : Handler H) (r r' : Router H)
      → (route_prefix m uri h r ≡ ok r') ↔ (
          IsRoutePath uri
          × (h ≢ none)
          × (r' ≡ record r { trie = insert r.trie (split [] uri) m h }))
  unfolding route_prefix
  route_prefix_iff m uri h r r' = (
    λ e. ground (arith, IsRoutePath-from uri),
    λ (path, some_handler, same). ground (arith, from-IsRoutePath uri path),
  )
