-- ===== src/Http/Router/Trie/Longest.antt =====
-- The loop of `find_route` in lib/include/http.hpp over the trie, and the longest registered prefix.
use mathlib.Core.Path.{subst, fun_ext}
use coroutine_http_server.Prelude.{
  ℕ, zero, suc, ◌<◌, ◌≤◌, Option, none, some, List, [], ◌∷◌, ◌≡◌, ◌⊎◌, refl, arith, Bytes, is_empty,
  ap, sym, ◌∙◌, Bool-cases, Option-cases, inl, inr, take, length,
}
use coroutine_http_server.Http.Method.{HttpMethod, any, method_key}
use coroutine_http_server.Http.Router.Trie.{
  Handler, Handlers, Node, Children, node, handlers, find_child, pick, longest, find_prefix,
}
use coroutine_http_server.Http.Router.Trie.Entries.{nonempty, entry}

-- What is registered for paths of components and methods.
abbrev pub Table : Type 0 → Type 0
Table H = List Bytes → HttpMethod → Option (Handler H)

module _ {H : Type 0} where
  -- The handler of a path for a method, where ANY stands for the methods with none of their own.
  abbrev pub either : Option (Handler H) → Option (Handler H) → Option (Handler H)
  either (some h) _ = some h
  either none o = o

  abbrev pub answer : Table H → HttpMethod → List Bytes → Option (Handler H)
  answer table m p = either (table p m) (table p any)

  -- No prefix longer than `n` has a handler.
  abbrev pub NoneAbove : Table H → HttpMethod → List Bytes → ℕ → Type 0
  NoneAbove table m cs n = (k : ℕ) → n < k → k ≤ length cs → answer table m (take k cs) ≡ none

  -- `h` is the handler of the longest prefix of `cs` that has one.
  abbrev pub IsLongestMatch : Table H → HttpMethod → List Bytes → Handler H → Type 0
  IsLongestMatch table m cs h =
      ((n : ℕ) × (n ≤ length cs) × (answer table m (take n cs) ≡ some h) × NoneAbove table m cs n)
      ⊎ ((h ≡ none) × (answer table m [] ≡ none) × NoneAbove table m cs 0)

  -- The same of the prefixes of at least one component, with the handler so far.
  abbrev LongestFrom : Table H → HttpMethod → List Bytes → Handler H → Handler H → Type 0
  LongestFrom table m cs before h =
      ((n : ℕ) × (n ≤ length cs) × (answer table m (take n cs) ≡ some h) × NoneAbove table m cs n)
      ⊎ ((h ≡ before) × NoneAbove table m cs 0)

  pick-answer :
      (t : Node H) (m : HttpMethod) (h : Handler H)
      → ((x : Handler H) × (answer (entry t) m [] ≡ some x) × (pick (handlers t) m h ≡ x))
        ⊎ ((answer (entry t) m [] ≡ none) × (pick (handlers t) m h ≡ h))
  unfolding entry pick
  pick-answer (node children hs) m h = ground arith

  NoneAbove-suc :
      (table : Table H) (m : HttpMethod) (c : Bytes) (cs : List Bytes) (n : ℕ)
      → NoneAbove (λ p. table (c ∷ p)) m cs n
      → NoneAbove table m (c ∷ cs) (suc n)
  NoneAbove-suc table m c cs n h zero lt le = elim lt [ ]
  NoneAbove-suc table m c cs n h (suc k) lt le = h k (omega arith) (omega arith)

  NoneAbove-zero :
      (table : Table H) (m : HttpMethod) (c : Bytes) (cs : List Bytes)
      → answer table m (c ∷ []) ≡ none
      → NoneAbove (λ p. table (c ∷ p)) m cs 0
      → NoneAbove table m (c ∷ cs) 0
  NoneAbove-zero table m c cs e h zero lt le = elim lt [ ]
  NoneAbove-zero table m c cs e h (suc zero) lt le = e
  NoneAbove-zero table m c cs e h (suc (suc k)) lt le = h (suc k) (omega arith) (omega arith)

  LongestFrom-cons :
      (table : Table H) (m : HttpMethod) (c : Bytes) (cs : List Bytes) (before here h : Handler H)
      → ((x : Handler H) × (answer table m (c ∷ []) ≡ some x) × (here ≡ x))
        ⊎ ((answer table m (c ∷ []) ≡ none) × (here ≡ before))
      → LongestFrom (λ p. table (c ∷ p)) m cs here h
      → LongestFrom table m (c ∷ cs) before h
  LongestFrom-cons table m c cs before here h _ (inl (n, le, e, above)) =
      inl (suc n, omega arith, e, NoneAbove-suc table m c cs n above)
  LongestFrom-cons table m c cs before here h (inl (x, e, picked)) (inr (same, above)) =
      inl (1, omega arith, e ∙ ap some (sym picked ∙ sym same), NoneAbove-suc table m c cs 0 above)
  LongestFrom-cons table m c cs before here h (inr (e, picked)) (inr (same, above)) =
      inr (same ∙ picked, NoneAbove-zero table m c cs e above)

  NoneAbove-missing :
      (c : Bytes) (cs : List Bytes) (children : Children H) (hs : Handlers H) (m : HttpMethod)
      → find_child c children ≡ none
      → NoneAbove (entry (node children hs)) m (c ∷ cs) 0
  unfolding entry
  NoneAbove-missing c cs children hs m e zero lt le = elim lt [ ]
  NoneAbove-missing c cs children hs m e (suc k) lt le = ground arith

  entry-found :
      (c : Bytes) (children : Children H) (hs : Handlers H) {t : Node H}
      → find_child c children ≡ some t
      → entry t ≡ (λ p. entry (node children hs) (c ∷ p))
  unfolding entry
  entry-found c children hs e = fun_ext (λ p. fun_ext (λ m. rw (e, entry) refl))

  pick-found :
      (c : Bytes) (children : Children H) (hs : Handlers H) (m : HttpMethod) (before : Handler H)
      {t : Node H}
      → find_child c children ≡ some t
      → let here = pick (handlers t) m before in
        ((x : Handler H) × (answer (entry (node children hs)) m (c ∷ []) ≡ some x) × (here ≡ x))
        ⊎ ((answer (entry (node children hs)) m (c ∷ []) ≡ none) × (here ≡ before))
  pick-found c children hs m before {t} e =
      subst
        (λ (table : Table H).
          ((x : Handler H) × (answer table m [] ≡ some x) × (pick (handlers t) m before ≡ x))
          ⊎ ((answer table m [] ≡ none) × (pick (handlers t) m before ≡ before)))
        (entry-found c children hs e) (pick-answer t m before)

  longest_lem :
      (cs : List Bytes) (t : Node H) (m : HttpMethod) (before : Handler H)
      → LongestFrom (entry t) m (nonempty cs) before (longest t cs m before)
  unfolding longest
  longest_lem [] t m before = inr (refl, λ k lt le. absurd (omega arith))
  longest_lem (c ∷ cs) (node children hs) m before = elim (Bool-cases (is_empty c)) [
    | inl skipped ↦ rw (skipped, longest) (longest_lem cs (node children hs) m before)
    | inr kept ↦ elim (Option-cases (find_child c children)) [
      | inl missed ↦
          rw (kept, missed, longest)
            (inr (refl, NoneAbove-missing c (nonempty cs) children hs m missed))
      | inr (t, found) ↦
          let here = pick (handlers t) m before in
          rw (kept, found, longest)
            (LongestFrom-cons (entry (node children hs)) m c (nonempty cs) before here _
              (pick-found c children hs m before found)
              (subst
                (λ (table : Table H). LongestFrom table m (nonempty cs) here (longest t cs m here))
                (entry-found c children hs found) (longest_lem cs t m here)))
    ]
  ]

  -- The prefix match gives the handler of the longest path of the trie that is a prefix of the
  -- components, empty ones left out, and none if no prefix has one.
  pub find_prefix-IsLongestMatch :
      (t : Node H) (cs : List Bytes) (m : HttpMethod)
      → IsLongestMatch (entry t) m (nonempty cs) (find_prefix t cs m)
  unfolding find_prefix
  find_prefix-IsLongestMatch t cs m =
      at_root (pick-answer t m none) (longest_lem cs t m (pick (handlers t) m none))
    where
      Here : Handler H → Type 0
      Here here =
          ((x : Handler H) × (answer (entry t) m [] ≡ some x) × (here ≡ x))
          ⊎ ((answer (entry t) m [] ≡ none) × (here ≡ none))

      at_root :
          {here h : Handler H}
          → Here here
          → LongestFrom (entry t) m (nonempty cs) here h
          → IsLongestMatch (entry t) m (nonempty cs) h
      at_root _ (inl found) = inl found
      at_root (inl (x, e, picked)) (inr (same, above)) =
          inl (0, omega arith, e ∙ ap some (sym picked ∙ sym same), above)
      at_root (inr (e, picked)) (inr (same, above)) = inr (same ∙ picked, e, above)
