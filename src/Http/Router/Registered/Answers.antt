-- ===== src/Http/Router/Registered/Answers.antt =====
-- `find_route` of lib/include/http.hpp, in terms of the registrations alone.
use mathlib.Core.Path.{subst, fun_ext}
use coroutine_http_server.Prelude.{
  true, false, none, some, List, ◌++◌, ◌≡◌, ◌≢◌, ◌⊎◌, refl, arith, Bytes, bytes_eq_iff, starts_with,
  [], ◌∷◌, ◌∙◌, find, Lacks, Lacks-append, find-Lacks, Lacks-find, find-eq-some, Option-cases,
  Bool-cases, inl, inr,
}
use coroutine_http_server.Prelude.Result.{ok}
use coroutine_http_server.Http.Method.{HttpMethod, any}
use coroutine_http_server.Http.Router.{
  Router, remove_query, slash, ends_with_slash, find_route_exact, find_route,
}
use coroutine_http_server.Http.Router.Exact.{handler_of, find_route_exact_lem}
use coroutine_http_server.Http.Router.Keys.{IsSqueezed, squeeze-IsSqueezed, IsSqueezed-append}
use coroutine_http_server.Http.Router.Registered.{
  Registration, exact, prefix, key_of, components, register_all, prefix_table, exact_table, Holds,
  register_all-Holds,
}
use coroutine_http_server.Http.Router.Trie.{Handler, split, find_prefix}
use coroutine_http_server.Http.Router.Trie.Longest.{
  Table, IsLongestMatch, find_prefix-IsLongestMatch,
}

pub remove_query-Lacks : (uri : Bytes) → Lacks b'?' (remove_query uri)
unfolding remove_query
remove_query-Lacks uri = elim (Option-cases (find b'?' uri)) [
  | inl e ↦ rw (e, remove_query) (Lacks-find b'?' uri e)
  | inr (i, e) ↦ rw (e, remove_query) ((find-eq-some b'?' uri i e).0)
]

pub remove_query_of_Lacks : (s : Bytes) → Lacks b'?' s → remove_query s ≡ s
unfolding remove_query
remove_query_of_Lacks s h = rw (find-Lacks b'?' s h, remove_query)

-- The three ways out of `find_route`.
module _ {H : Type 0} (r : Router H) (m : HttpMethod) (uri : Bytes)
    (s : starts_with uri slash ≡ true) where
  find_route_first :
      {x : H} → find_route_exact m (remove_query uri) r ≡ some x → find_route m uri r ≡ ok (some x)
  unfolding find_route
  find_route_first e = ground arith

  find_route_second :
      {x : H}
      → find_route_exact m (remove_query uri) r ≡ none
      → ends_with_slash (remove_query uri) ≡ false
      → find_route_exact m (remove_query uri ++ slash) r ≡ some x
      → find_route m uri r ≡ ok (some x)
  unfolding find_route
  find_route_second e bare e' = ground arith

  find_route_last :
      find_route_exact m (remove_query uri) r ≡ none
      → (ends_with_slash (remove_query uri) ≡ true)
        ⊎ (find_route_exact m (remove_query uri ++ slash) r ≡ none)
      → find_route m uri r ≡ ok (find_prefix r.trie (split [] (remove_query uri)) m)
  unfolding find_route
  find_route_last e (inl slashed) = ground arith
  find_route_last e (inr e') = ground arith

module _ {H : Type 0} (regs : List (Registration H)) where
  -- The exact route for a path, if its handler is not null.
  abbrev pub exact_answer : HttpMethod → Bytes → Handler H
  exact_answer m path = handler_of (exact_table regs path m) (exact_table regs path any)

  -- The answer for a path with no query: the exact route for it; or else the one for it with a slash
  -- behind it, if it ends with none; or else the longest prefix route.
  abbrev pub IsAnswer : HttpMethod → Bytes → Handler H → Type 0
  IsAnswer m path h =
      ((h ≢ none) × (exact_answer m path ≡ h))
      ⊎ ((h ≢ none)
          × (exact_answer m path ≡ none)
          × (ends_with_slash path ≡ false)
          × (exact_answer m (path ++ slash) ≡ h))
      ⊎ ((exact_answer m path ≡ none)
          × ((ends_with_slash path ≡ true) ⊎ (exact_answer m (path ++ slash) ≡ none))
          × IsLongestMatch (prefix_table regs) m (components path) h)

  module _ (r : Router H) (holds : Holds regs r) where
    exact-answers :
        (m : HttpMethod) (path : Bytes)
        → Lacks b'?' path
        → find_route_exact m path r ≡ exact_answer m path
    exact-answers m path l =
        find_route_exact_lem m path r
        ∙ rw (remove_query_of_Lacks path l, holds.in_exact path m, holds.in_exact path any)

    prefix-answers :
        (m : HttpMethod) (path : Bytes)
        → IsLongestMatch
            (prefix_table regs)
            m
            (components path)
            (find_prefix r.trie (split [] path) m)
    prefix-answers m path =
        subst
          (λ (t : Table H).
            IsLongestMatch t m (components path) (find_prefix r.trie (split [] path) m))
          (fun_ext (λ p. fun_ext (λ k. holds.in_trie p k)))
          (find_prefix-IsLongestMatch r.trie (split [] path) m)

    find_route_of_Holds :
        (m : HttpMethod) (uri : Bytes)
        → starts_with uri slash ≡ true
        → (h : Handler H) × (find_route m uri r ≡ ok h) × IsAnswer m (remove_query uri) h
    find_route_of_Holds m uri s =
        let path = remove_query uri in
        let lacks = remove_query-Lacks uri in
        let first = exact-answers m path lacks in
        let second =
          exact-answers m (path ++ slash) (Lacks-append b'?' path slash lacks (refl, tt)) in
        let longest_prefix = prefix-answers m path in
        elim (Option-cases (exact_answer m path)) [
          | inr (x, e) ↦ (some x, find_route_first r m uri s (first ∙ e), inl (λ h. cc, e))
          | inl e ↦ elim (Bool-cases (ends_with_slash path)) [
            | inl slashed ↦ (
              find_prefix r.trie (split [] path) m,
              find_route_last r m uri s (first ∙ e) (inl slashed),
              inr (inr (e, inl slashed, longest_prefix)),
            )
            | inr bare ↦ elim (Option-cases (exact_answer m (path ++ slash))) [
              | inr (x, e') ↦ (
                some x,
                find_route_second r m uri s (first ∙ e) bare (second ∙ e'),
                inr (inl (λ h. cc, e, bare, e')),
              )
              | inl e' ↦ (
                find_prefix r.trie (split [] path) m,
                find_route_last r m uri s (first ∙ e) (inr (second ∙ e')),
                inr (inr (e, inr e', longest_prefix)),
              )
            ]
          ]
        ]

  -- After any registrations that all succeed, `find_route` of a uri that begins with a slash returns,
  -- and what it returns is the answer for the uri with its query removed.
  pub find_route-IsAnswer :
      (r : Router H) (m : HttpMethod) (uri : Bytes)
      → register_all regs ≡ ok r
      → starts_with uri slash ≡ true
      → (h : Handler H) × (find_route m uri r ≡ ok h) × IsAnswer m (remove_query uri) h
  find_route-IsAnswer r m uri built s =
      find_route_of_Holds r (register_all-Holds regs r built) m uri s

module _ {H : Type 0} where
  -- No exact route is kept under a path with a doubled slash.
  exact_table_doubled :
      (regs : List (Registration H)) (path : Bytes) (m : HttpMethod)
      → ¬ IsSqueezed 0 path
      → exact_table regs path m ≡ none
  unfolding exact_table
  exact_table_doubled [] path m d = refl
  exact_table_doubled (exact m' uri h ∷ regs) path m d = ground (
    arith,
    exact_table_doubled regs path m d,
    bytes_eq_iff (key_of uri) path,
    λ (same : key_of uri ≡ path).
        absurd {A = false ≡ true}
          (d (subst (IsSqueezed 0) same (squeeze-IsSqueezed 0 (remove_query uri)))),
  )
  exact_table_doubled (prefix m' uri h ∷ regs) path m d = exact_table_doubled regs path m d

  no_exact_answer :
      (regs : List (Registration H)) (path : Bytes) (m : HttpMethod)
      → ¬ IsSqueezed 0 path
      → exact_answer regs m path ≡ none
  no_exact_answer regs path m d =
      rw (exact_table_doubled regs path m d, exact_table_doubled regs path any d)

  -- A path with a doubled slash, which `route` takes like the path with one, is never answered by an
  -- exact route: after any registrations that all succeed, only the longest prefix route answers it.
  pub find_route_doubled :
      (regs : List (Registration H)) (r : Router H) (m : HttpMethod) (uri : Bytes)
      → register_all regs ≡ ok r
      → starts_with uri slash ≡ true
      → ¬ IsSqueezed 0 (remove_query uri)
      → (h : Handler H) × (find_route m uri r ≡ ok h)
        × IsLongestMatch (prefix_table regs) m (components (remove_query uri)) h
  find_route_doubled regs r m uri built s d =
      let path = remove_query uri in
      let holds = register_all-Holds regs r built in
      let lacks = remove_query-Lacks uri in
      let d' : ¬ IsSqueezed 0 (path ++ slash) = λ q. d (IsSqueezed-append 0 path slash q) in
      (
        find_prefix r.trie (split [] path) m,
        find_route_last r m uri s
            (exact-answers regs r holds m path lacks ∙ no_exact_answer regs path m d)
            (inr (
              exact-answers regs r holds m (path ++ slash)
                (Lacks-append b'?' path slash lacks (refl, tt))
              ∙ no_exact_answer regs (path ++ slash) m d')),
        prefix-answers regs r holds m path,
      )
