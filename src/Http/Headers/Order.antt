-- ===== src/Http/Headers/Order.antt =====
-- The order of `HTTPHeaders`, of lib/include/http.hpp: assignments and searches in the map.
use coroutine_http_server.Prelude.{
  true, false, none, some, [], ◌∷◌, ◌++◌, ◌≡◌, refl, sym, ap, append-nil, All-append, ◌∙◌, arith,
  All, Bytes, append_assoc,
}
use coroutine_http_server.Utility.Compare.{less, equal}
use coroutine_http_server.Utility.Compare.Order.{
  less_asymm, less_irrefl, equal_refl, equal_of_not_less,
}
use coroutine_http_server.Http.Headers.{Headers, insert_or_assign, find_header}

-- The entries stand in the order of their names, and no name stands there twice, whatever its case.
abbrev pub IsMap : Headers → Type 0
IsMap [] = Unit
IsMap ((k, v) ∷ headers) = All (λ p. less k p.0 ≡ true) headers × IsMap headers

-- A name behind all others is put at the end.
pub insert_or_assign_last :
    (k v : Bytes) (headers : Headers)
    → All (λ p. less p.0 k ≡ true) headers
    → insert_or_assign k v headers ≡ headers ++ (k, v) ∷ []
unfolding insert_or_assign
insert_or_assign_last k v [] h = refl
insert_or_assign_last k v ((j, w) ∷ headers) h =
    rw (less_asymm j k h.0, h.0) (ap (◌∷◌ (j, w)) (insert_or_assign_last k v headers h.1))

-- The assignments of the entries, in order.
unfoldable pub assign_all : Headers → Headers → Headers
assign_all [] headers = headers
assign_all ((k, v) ∷ fields) headers = assign_all fields (insert_or_assign k v headers)

-- Every name of the first map comes in front of every name of the second.
abbrev Precede : Headers → Headers → Type 0
Precede headers fields = All (λ p. All (λ q. less p.0 q.0 ≡ true) fields) headers

firsts :
    (k v : Bytes) (fields headers : Headers)
    → Precede headers ((k, v) ∷ fields)
    → All (λ p. less p.0 k ≡ true) headers
firsts k v fields [] p = tt
firsts k v fields (e ∷ headers) p = (p.0.0, firsts k v fields headers p.1)

seconds :
    (k v : Bytes) (fields headers : Headers)
    → Precede headers ((k, v) ∷ fields)
    → Precede headers fields
seconds k v fields [] p = tt
seconds k v fields (e ∷ headers) p = (p.0.1, seconds k v fields headers p.1)

assign_all-IsMap :
    (fields headers : Headers)
    → IsMap fields
    → Precede headers fields
    → assign_all fields headers ≡ headers ++ fields
unfolding assign_all
assign_all-IsMap [] headers m p = sym (append-nil headers)
assign_all-IsMap ((k, v) ∷ fields) headers m p =
    rw (insert_or_assign_last k v headers (firsts k v fields headers p)) (
      assign_all-IsMap fields (headers ++ (k, v) ∷ []) m.1
        (All-append _ headers ((k, v) ∷ []) (seconds k v fields headers p) (m.0, tt))
      ∙ append_assoc headers ((k, v) ∷ []) fields)

-- Entries in the order of a map are the map again when they are assigned in order.
pub assign_all_again : (fields : Headers) → IsMap fields → assign_all fields [] ≡ fields
assign_all_again fields m = assign_all-IsMap fields [] m tt

-- What is assigned is found.
pub find_header-insert_or_assign :
    (k v : Bytes) (headers : Headers) → find_header k (insert_or_assign k v headers) ≡ some v
unfolding find_header insert_or_assign
find_header-insert_or_assign k v [] = rw (less_irrefl k k (equal_refl k)) refl
find_header-insert_or_assign k v ((j, w) ∷ headers) =
    ground (arith, less_irrefl k k (equal_refl k), find_header-insert_or_assign k v headers)

-- What no entry is called is not found.
pub find_header-none :
    (k : Bytes) (headers : Headers)
    → All (λ p. equal p.0 k ≡ false) headers
    → find_header k headers ≡ none
unfolding find_header
find_header-none k [] h = refl
find_header-none k ((j, w) ∷ headers) h =
    ground (arith, equal_of_not_less j k, find_header-none k headers h.1)
