-- ===== src/Http/Uri/RoundTrip.antt =====
-- A writer of request targets, against `ParsedURI::from` of lib/include/http.hpp.
use mathlib.Core.List.{map}
use native.Mathlib.Numerals.{add-one}
use coroutine_http_server.Prelude.{
  false, [], ◌∷◌, ◌++◌, ◌≡◌, ◌≢◌, refl, ap, sym, ◌∙◌, Bytes, bytes_eq, is_empty, find, contains,
  All, Lacks, Lacks-append, find_first, take-find, drop-find, append_assoc, append-nil, All-append,
}
use coroutine_http_server.UnorderedMap.{bytes_key}
use coroutine_http_server.UnorderedMap.Laws.{assign_new}
use coroutine_http_server.Http.Uri.{
  origin, Params, getlines, add_param, add_params, finish_query, from_origin, from, scheme_mark,
}

abbrev pub write_pair : Bytes × Bytes → Bytes
write_pair (k, v) = k ++ b'=' ∷ v

-- The query for the parameters, in their order.
abbrev pub write_query : Params → Bytes
write_query [] = []
write_query (p ∷ []) = write_pair p
write_query (p ∷ q ∷ ps) = write_pair p ++ b'&' ∷ write_query (q ∷ ps)

-- A parameter that a query can express.
abbrev pub IsParam : Bytes × Bytes → Type 0
IsParam (k, v) = Lacks b'=' k × Lacks b'&' k × Lacks b'&' v

abbrev pub HasDistinctKeys : Params → Type 0
HasDistinctKeys [] = Unit
HasDistinctKeys (p ∷ ps) = All (λ q. bytes_eq p.0 q.0 ≡ false) ps × HasDistinctKeys ps

write_pair-Lacks : (p : Bytes × Bytes) → IsParam p → Lacks b'&' (write_pair p)
write_pair-Lacks (k, v) (_, h, h') = Lacks-append b'&' k (b'=' ∷ v) h (refl, h')

getlines_next :
    (w pair rest : Bytes)
    → Lacks b'&' w
    → getlines pair (w ++ b'&' ∷ rest) ≡ (pair ++ w) ∷ getlines [] rest
unfolding getlines
getlines_next [] pair rest h = rw append-nil
getlines_next (c ∷ w) pair rest h =
    rw (h.0, getlines)
      (rw (← append_assoc pair (c ∷ []) w) (getlines_next w (pair ++ c ∷ []) rest h.1))

getlines_last :
    (w pair : Bytes)
    → Lacks b'&' w
    → is_empty (pair ++ w) ≡ false
    → getlines pair w ≡ (pair ++ w) ∷ []
unfolding getlines
getlines_last [] pair h e = rw append-nil (rw (rw append-nil at e))
getlines_last (c ∷ w) pair h e =
    rw (h.0, getlines)
      (rw (← append_assoc pair (c ∷ []) w)
        (getlines_last w (pair ++ c ∷ []) h.1 (rw append_assoc e)))

is_empty-write_pair : (p : Bytes × Bytes) → is_empty (write_pair p) ≡ false
is_empty-write_pair ([], v) = refl
is_empty-write_pair ((c ∷ k), v) = refl

getlines-write_query :
    (ps : Params) → All IsParam ps → ps ≢ [] → getlines [] (write_query ps) ≡ map write_pair ps
getlines-write_query [] h e = absurd (e refl)
getlines-write_query (p ∷ []) h e =
    getlines_last (write_pair p) [] (write_pair-Lacks p h.0) (is_empty-write_pair p)
getlines-write_query (p ∷ q ∷ ps) h e =
    getlines_next (write_pair p) [] (write_query (q ∷ ps)) (write_pair-Lacks p h.0)
    ∙ ap (◌∷◌ (write_pair p)) (getlines-write_query (q ∷ ps) h.1 (λ e'. cc))

add_param-write_pair :
    (acc : Params) (p : Bytes × Bytes)
    → IsParam p
    → All (λ q. bytes_eq q.0 p.0 ≡ false) acc
    → add_param acc (write_pair p) ≡ acc ++ p ∷ []
unfolding add_param
add_param-write_pair acc (k, v) h d =
    rw (find_first b'=' k v h.0, add_param)
      (rw (take-find k, add-one, drop-find k v b'=') (assign_new k v acc d))

-- The keys read so far differ from a key yet to be read.
abbrev Apart : Params → Bytes × Bytes → Type 0
Apart acc p = All (λ q. bytes_eq q.0 p.0 ≡ false) acc

Apart-step :
    (acc : Params) (p : Bytes × Bytes) (ps : Params)
    → All (Apart acc) ps
    → All (λ q. bytes_eq p.0 q.0 ≡ false) ps
    → All (Apart (acc ++ p ∷ [])) ps
Apart-step acc p [] h d = tt
Apart-step acc p (q ∷ ps) h d = (
  All-append (λ r. bytes_eq r.0 q.0 ≡ false) acc (p ∷ []) h.0 (d.0, tt),
  Apart-step acc p ps h.1 d.1,
)

add_params-write_pairs :
    (ps acc : Params)
    → All IsParam ps
    → HasDistinctKeys ps
    → All (Apart acc) ps
    → add_params acc (map write_pair ps) ≡ acc ++ ps
unfolding add_params
add_params-write_pairs [] acc h d a = sym (append-nil acc)
add_params-write_pairs (p ∷ ps) acc h d a =
    rw (add_param-write_pair acc p h.0 a.0, add_params)
      (add_params-write_pairs ps (acc ++ p ∷ []) h.1 d.1 (Apart-step acc p ps a.1 d.0)
        ∙ append_assoc acc (p ∷ []) ps)

All-Apart_nil : (ps : Params) → All (Apart []) ps
All-Apart_nil [] = tt
All-Apart_nil (p ∷ ps) = (tt, All-Apart_nil ps)

finish_query_lem :
    (path : Bytes) (ps : Params)
    → ps ≢ []
    → finish_query path ps ≡ record { type = origin; path = path; params = ps }
unfolding finish_query
finish_query_lem path [] h = absurd (h refl)
finish_query_lem path (p ∷ ps) h = refl

from_origin-write :
    (path : Bytes) (ps : Params)
    → Lacks b'?' path
    → ps ≢ []
    → All IsParam ps
    → HasDistinctKeys ps
    → from_origin (path ++ b'?' ∷ write_query ps)
      ≡ record { type = origin; path = path; params = ps }
unfolding from_origin
from_origin-write path ps no_mark some_param params distinct =
    rw (find_first b'?' path (write_query ps) no_mark, from_origin)
      (rw (take-find path, add-one, drop-find path (write_query ps) b'?')
        (rw
          (
            getlines-write_query ps params some_param,
            add_params-write_pairs ps [] params distinct (All-Apart_nil ps),
          )
          (finish_query_lem path ps some_param)))

-- A target written from a path below the root and at least one parameter, with distinct keys and no
-- separator inside a part, and free of "://", is read as ORIGIN with that path and those parameters.
pub from-write_query :
    (path : Bytes) (ps : Params)
    → Lacks b'?' path
    → ps ≢ []
    → All IsParam ps
    → HasDistinctKeys ps
    → contains scheme_mark (b'/' ∷ path ++ b'?' ∷ write_query ps) ≡ false
    → from (b'/' ∷ path ++ b'?' ∷ write_query ps)
      ≡ record { type = origin; path = b'/' ∷ path; params = ps }
unfolding from find bytes_eq
from-write_query path ps no_mark some_param params distinct no_scheme =
    rw no_scheme (from_origin-write (b'/' ∷ path) ps (refl, no_mark) some_param params distinct)
