-- ===== src/Http/Router/Registered.antt =====
-- The router of lib/include/http.hpp against the list of the registrations made with it.
pub mod Answers
use coroutine_http_server.Prelude.{
  Bool, true, false, ◌&&◌, Option, none, some, List, [], ◌∷◌, ◌++◌, ◌≡◌, refl, arith, Bytes,
  bytes_eq, if◌then◌else◌, starts_with, sym, ap, ◌∙◌, find, Lacks, Lacks-append, find-Lacks,
  Lacks-find, find-eq-some, take, Option-cases, inl, inr, ◌↔◌, ◌≢◌, not,
}
use coroutine_http_server.Prelude.Result.{Result, ok, ◌>>=◌, >>=-eq-ok}
use coroutine_http_server.UnorderedMap.{lookup}
use coroutine_http_server.Http.Method.{HttpMethod, method_eq}
use coroutine_http_server.Http.Router.{
  Router, new_router, remove_query, squeeze, slash, assign_exact, route, route_prefix,
}
use coroutine_http_server.Http.Router.Exact.{exact_entry, exact_entry-assign_exact}
use coroutine_http_server.Http.Router.Prefix.{route_prefix_iff}
use coroutine_http_server.Http.Router.Trie.{Handler, split, insert}
use coroutine_http_server.Http.Router.Trie.Entries.{
  nonempty, path_eq, entry, entry_new, entry-insert,
}

-- A call of `route` or of `route_prefix`.
pub data Registration (H : Type 0) : Type 0 where
  exact prefix : HttpMethod → Bytes → Handler H → Registration H

-- The key under which an exact route is kept, and the components of a uri.
abbrev pub key_of : Bytes → Bytes
key_of uri = squeeze 0 (remove_query uri)

abbrev pub components : Bytes → List Bytes
components uri = nonempty (split [] uri)

module _ {H : Type 0} where
  abbrev pub register : Registration H → Router H → Result (Router H)
  register (exact m uri h) r = route m uri h r
  register (prefix m uri h) r = route_prefix m uri h r

  -- The router after the registrations, the last of which stands first.
  unfoldable pub register_all : List (Registration H) → Result (Router H)
  register_all [] = ok new_router
  register_all (reg ∷ regs) = register_all regs >>= register reg

  -- The last handler registered for a path of components and a method.
  unfoldable pub prefix_table : List (Registration H) → List Bytes → HttpMethod → Option (Handler H)
  prefix_table [] p m = none
  prefix_table (exact m' uri h ∷ regs) p m = prefix_table regs p m
  prefix_table (prefix m' uri h ∷ regs) p m =
      if path_eq (components uri) p && method_eq m' m then some h else prefix_table regs p m

  -- The last handler registered for a whole path and a method.
  unfoldable pub exact_table : List (Registration H) → Bytes → HttpMethod → Option (Handler H)
  exact_table [] key m = none
  exact_table (exact m' uri h ∷ regs) key m =
      if bytes_eq (key_of uri) key && method_eq m' m then some h else exact_table regs key m
  exact_table (prefix m' uri h ∷ regs) key m = exact_table regs key m

  -- `route` succeeds exactly on a uri that begins with a slash, whatever the method and the handler;
  -- then the handler is kept under the method and the key of the uri, and the trie does not change.
  pub route_iff :
      (m : HttpMethod) (uri : Bytes) (h : Handler H) (r r' : Router H)
      → (route m uri h r ≡ ok r') ↔ (
          (starts_with uri slash ≡ true)
          × (r' ≡ record r { exact_matches = assign_exact (key_of uri) m h r.exact_matches }))
  unfolding route
  route_iff m uri h r r' = ground arith

  -- The router holds what the registrations say.
  pub record Holds (regs : List (Registration H)) (r : Router H) : Type 0 where
    pub in_trie : (p : List Bytes) (m : HttpMethod) → entry r.trie p m ≡ prefix_table regs p m
    pub in_exact :
        (key : Bytes) (m : HttpMethod) → exact_entry r.exact_matches key m ≡ exact_table regs key m

  Holds-new : Holds [] new_router
  unfolding prefix_table exact_table exact_entry lookup
  Holds-new = record { in_trie = entry_new; in_exact = λ key m. refl }

  Holds-register :
      (reg : Registration H) (regs : List (Registration H)) (r r' : Router H)
      → Holds regs r
      → register reg r ≡ ok r'
      → Holds (reg ∷ regs) r'
  unfolding prefix_table exact_table
  Holds-register (exact m uri h) regs r r' holds e =
      let same = ((route_iff m uri h r r').0 e).1 in
      rw same (record {
        in_trie = holds.in_trie;
        in_exact = λ key m'.
            exact_entry-assign_exact (key_of uri) key m m' h r.exact_matches
            ∙ ap (if◌then◌else◌ (bytes_eq (key_of uri) key && method_eq m m') (some h))
                (holds.in_exact key m');
      })
  Holds-register (prefix m uri h) regs r r' holds e =
      let same = ((route_prefix_iff m uri h r r').0 e).2 in
      rw same (record {
        in_trie = λ p m'.
            entry-insert (split [] uri) p r.trie m m' h
            ∙ ap (if◌then◌else◌ (path_eq (components uri) p && method_eq m m') (some h))
                (holds.in_trie p m');
        in_exact = holds.in_exact;
      })

  ok-injective : {r r' : Router H} → ok r ≡ ok r' → r ≡ r'
  ok-injective e = cc

  -- After any registrations that all succeed, the trie and the table of exact routes give, for each
  -- path and method, the handler registered last for them.
  pub register_all-Holds :
      (regs : List (Registration H)) (r : Router H) → register_all regs ≡ ok r → Holds regs r
  unfolding register_all
  register_all-Holds [] r e = rw (← (ok-injective e)) Holds-new
  register_all-Holds (reg ∷ regs) r e =
      let (before, built, last) = >>=-eq-ok (register_all regs) (register reg) e in
      Holds-register reg regs before r (register_all-Holds regs before built) last
