-- ===== src/Http/Router/Trie.antt =====
-- `HTTPRouter::Node` of lib/include/http.hpp, and the two loops over the components of a uri: the one
-- of `route_prefix` that inserts and the one of `find_route` that looks for the longest prefix. A
-- handler is a `std::function`, and `none` is the null one.
pub mod Entries
pub mod Longest
use coroutine_http_server.Prelude.{
  Bool, true, false, Option, none, some, List, [], ◌∷◌, if◌then◌else◌, Bytes, bytes_eq, is_empty,
  ◌==◌, ◌++◌,
}
use coroutine_http_server.UnorderedMap.{lookup, assign}
use coroutine_http_server.Http.Method.{HttpMethod, any, method_key}

-- `HTTPHandler`, over what a function that is not null does.
abbrev pub Handler : Type 0 → Type 0
Handler H = Option H

abbrev pub Handlers : Type 0 → Type 0
Handlers H = List (HttpMethod × Handler H)

mutual
  -- `Node`: the children and the handlers.
  pub data Node (H : Type 0) : Type 0 where
    node : Children H → Handlers H → Node H

  -- The map `children`.
  pub data Children (H : Type 0) : Type 0 where
    end : Children H
    child : Bytes → Node H → Children H → Children H

-- The strings of `std::views::split(uri, "/"sv)`; `part` holds what has been read of the current one.
unfoldable pub split : Bytes → Bytes → List Bytes
split part [] = part ∷ []
split part (c ∷ uri) = elim (c == b'/') [
  | true ↦ part ∷ split [] uri
  | false ↦ split (part ++ c ∷ []) uri
]

module _ {H : Type 0} where
  -- `std::make_unique<Node>()`
  abbrev pub new_node : Node H
  new_node = node end []

  abbrev pub handlers : Node H → Handlers H
  handlers (node _ hs) = hs

  -- `children.find(sv)`
  unfoldable pub find_child : Bytes → Children H → Option (Node H)
  find_child sv end = none
  find_child sv (child name t rest) = if bytes_eq name sv then some t else find_child sv rest

  -- Puts a child back behind its name, or inserts it.
  unfoldable pub set_child : Bytes → Node H → Children H → Children H
  set_child sv t end = child sv t end
  set_child sv t (child name u rest) =
      if bytes_eq name sv then child name t rest else child name u (set_child sv t rest)

  -- The child of that name, or the new node that `route_prefix` inserts where there is none.
  abbrev pub child_or_new : Option (Node H) → Node H
  child_or_new none = new_node
  child_or_new (some t) = t

  -- The loop of `route_prefix` from the node `cur`, and the assignment behind it.
  unfoldable pub insert : Node H → List Bytes → HttpMethod → Handler H → Node H
  unfolding find_child set_child
  insert (node children hs) [] method handler = node children (assign method handler hs)
  insert (node children hs) (sv ∷ coms) method handler = elim (is_empty sv) [
    | true ↦ insert (node children hs) coms method handler
    | false ↦
        node
          (set_child sv (insert (child_or_new (find_child sv children)) coms method handler)
            children)
          hs
  ]

  -- The handler of a node for a method, or for ANY, or else the one found before.
  unfoldable pub pick : Handlers H → HttpMethod → Handler H → Handler H
  pick hs method h = elim (lookup method hs) [
    | some h' ↦ h'
    | none ↦ elim (lookup any hs) [ some h' ↦ h' | none ↦ h ]
  ]

  -- The loop of `find_route` over the components, from the node `cur`.
  unfoldable pub longest : Node H → List Bytes → HttpMethod → Handler H → Handler H
  unfolding pick find_child
  longest cur [] method h = h
  longest (node children hs) (sv ∷ coms) method h = elim (is_empty sv) [
    | true ↦ longest (node children hs) coms method h
    | false ↦ elim (find_child sv children) [
      | none ↦ h
      | some t ↦ longest t coms method (pick (handlers t) method h)
    ]
  ]

  -- The prefix match of `find_route`: the root first, then the loop.
  unfoldable pub find_prefix : Node H → List Bytes → HttpMethod → Handler H
  unfolding longest
  find_prefix trie coms method = longest trie coms method (pick (handlers trie) method none)
