-- ===== src/Http/Router/Names.antt =====
-- The overloads of `route` and `route_prefix` in lib/include/http.hpp that take the method by name.
use coroutine_http_server.Prelude.{ℕ, zero, suc, none, ◌≡◌, ◌≢◌, refl, arith, Bytes}
use coroutine_http_server.Http.Method.{invalid, http_method, method_eq_iff}
use coroutine_http_server.Http.Router.{Router, route_by_name, route_prefix_by_name}
use coroutine_http_server.Http.Router.Trie.{Handler}

module _ {H : Type 0} (method uri : Bytes) (handler : Handler H) (r : Router H) where
  -- With the name of a method neither overload by name ever returns: however many calls are allowed,
  -- they are used up.
  pub by_name_diverges :
      (fuel : ℕ)
      → http_method method ≢ invalid
      → (route_by_name fuel method uri handler r ≡ none)
        × (route_prefix_by_name fuel method uri handler r ≡ none)
  unfolding route_by_name route_prefix_by_name
  by_name_diverges zero known = (refl, refl)
  by_name_diverges (suc fuel) known =
      ground (arith, method_eq_iff (http_method method) invalid, by_name_diverges fuel known)
