-- ===== src/Http/Router/Trie/Entries.antt =====
-- The trie of lib/include/http.hpp as a function from a path of components and a method to what is
-- registered there.
use coroutine_http_server.Prelude.{
  Bool, true, false, ◌&&◌, Option, none, some, List, [], ◌∷◌, ◌≡◌, refl, if◌then◌else◌, arith,
  Bytes, bytes_eq, bytes_eq_iff, is_empty, Bool-cases, Option-cases, inl, inr,
}
use coroutine_http_server.UnorderedMap.{lookup}
use coroutine_http_server.UnorderedMap.Laws.{lookup-assign}
use coroutine_http_server.Http.Method.{HttpMethod, method_eq, method_key}
use coroutine_http_server.Http.Router.Trie.{
  Handler, Handlers, Node, Children, node, end, child, new_node, find_child, set_child, insert,
  child_or_new,
}

-- The components that the loops do not skip.
abbrev pub nonempty : List Bytes → List Bytes
nonempty [] = []
nonempty (c ∷ cs) = if is_empty c then nonempty cs else c ∷ nonempty cs

abbrev pub path_eq : List Bytes → List Bytes → Bool
path_eq [] [] = true
path_eq (c ∷ cs) (d ∷ ds) = bytes_eq c d && path_eq cs ds
path_eq _ _ = false

module _ {H : Type 0} where
  -- What the trie holds at a path for a method.
  unfoldable pub entry : Node H → List Bytes → HttpMethod → Option (Handler H)
  entry (node children hs) [] m = lookup m hs
  entry (node children hs) (c ∷ cs) m = elim (find_child c children) [
    | none ↦ none
    | some t ↦ entry t cs m
  ]

  pub find_child-set_child :
      (c d : Bytes) (t : Node H) (cs : Children H)
      → find_child d (set_child c t cs) ≡ (if bytes_eq c d then some t else find_child d cs)
  unfolding find_child set_child
  find_child-set_child c d t end = refl
  find_child-set_child c d t (child name u rest) = ground (
    arith,
    bytes_eq_iff c d,
    bytes_eq_iff name c,
    bytes_eq_iff name d,
    find_child-set_child c d t rest,
  )

  pub entry_new : (p : List Bytes) (m : HttpMethod) → entry (new_node {H = H}) p m ≡ none
  unfolding entry lookup find_child
  entry_new [] m = refl
  entry_new (c ∷ cs) m = refl

  entry-child_or_new :
      (c : Bytes) (ds : List Bytes) (children : Children H) (hs : Handlers H) (m : HttpMethod)
      → entry (child_or_new (find_child c children)) ds m ≡ entry (node children hs) (c ∷ ds) m
  unfolding entry
  entry-child_or_new c ds children hs m = elim (Option-cases (find_child c children)) [
    | inl e ↦ rw (e, entry) (entry_new ds m)
    | inr (t, e) ↦ rw (e, entry) refl
  ]

  -- One level down, from the statement for the child.
  below :
      (c : Bytes) (cs p : List Bytes) (children : Children H) (hs : Handlers H) (m m' : HttpMethod)
      (h : Handler H)
      → ((ds : List Bytes) (t : Node H)
          → entry (insert t cs m h) ds m'
            ≡ (if path_eq (nonempty cs) ds && method_eq m m' then some h else entry t ds m'))
      → entry
          (node (set_child c (insert (child_or_new (find_child c children)) cs m h) children) hs)
          p
          m'
        ≡ (if path_eq (c ∷ nonempty cs) p && method_eq m m'
            then some h
            else entry (node children hs) p m')
  unfolding entry
  below c cs [] children hs m m' h ih = refl
  below c cs (d ∷ ds) children hs m m' h ih = ground (
    arith,
    bytes_eq_iff c d,
    find_child-set_child c d (insert (child_or_new (find_child c children)) cs m h) children,
    ih ds (child_or_new (find_child c children)),
    entry-child_or_new c ds children hs m',
  )

  -- A registration is seen at its path and method, and nowhere else.
  pub entry-insert :
      (cs p : List Bytes) (t : Node H) (m m' : HttpMethod) (h : Handler H)
      → entry (insert t cs m h) p m'
        ≡ (if path_eq (nonempty cs) p && method_eq m m' then some h else entry t p m')
  unfolding entry insert
  entry-insert [] [] (node children hs) m m' h = lookup-assign m m' h hs
  entry-insert [] (d ∷ ds) (node children hs) m m' h = refl
  entry-insert (c ∷ cs) p (node children hs) m m' h = elim (Bool-cases (is_empty c)) [
    | inl skipped ↦ rw (skipped, insert) (entry-insert cs p (node children hs) m m' h)
    | inr kept ↦
        rw (kept, insert) (below c cs p children hs m m' h (λ ds t. entry-insert cs ds t m m' h))
  ]
