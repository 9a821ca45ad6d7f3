-- ===== src/Http/Uri/Kinds.antt =====
-- The kinds of request targets that `ParsedURI::from` of lib/include/http.hpp tells apart.
use native.Mathlib.Numerals.{add-one}
use coroutine_http_server.Prelude.{
  ◌+◌, true, false, none, [], ◌∷◌, ◌++◌, ◌≡◌, ◌≢◌, ◌↔◌, ◌⊎◌, inl, inr, refl, ap, sym, ◌∙◌, arith,
  Bytes, codes, bytes_eq_iff, find, contains, take, drop, Lacks, Lacks-find, find-eq-some,
  take-append-drop, Option-cases,
}
use coroutine_http_server.Http.Uri.{
  TargetType, origin, absolute, authority, asterisk, invalid, Params, getlines, add_params,
  finish_query, from_origin, from, scheme_mark,
}

-- Of the three kinds below, `finish_query` and `from_origin` give none.
abbrev IsOriginOrInvalid : TargetType → Type 0
IsOriginOrInvalid t = (t ≡ origin) ⊎ (t ≡ invalid)

finish_query_kind : (path : Bytes) (ps : Params) → IsOriginOrInvalid (finish_query path ps).type
unfolding finish_query
finish_query_kind path [] = inr refl
finish_query_kind path (p ∷ ps) = inl refl

from_origin_kind : (s : Bytes) → IsOriginOrInvalid (from_origin s).type
unfolding from_origin
from_origin_kind s = elim (Option-cases (find b'?' s)) [
  | inl e ↦ rw (e, from_origin) (inl refl)
  | inr (i, e) ↦ rw (e, from_origin) (finish_query_kind _ _)
]

contains_asterisk : contains scheme_mark (codes "*") ≡ false
unfolding contains
contains_asterisk = refl

contains_nil : contains scheme_mark [] ≡ false
unfolding contains
contains_nil = refl

-- A target is ASTERISK exactly if it is "*"; ABSOLUTE exactly if "://" stands anywhere in it; and
-- AUTHORITY exactly if it is neither, is not empty, and has no slash.
pub from-type_iff :
    (s : Bytes)
    → (((from s).type ≡ asterisk) ↔ (s ≡ codes "*"))
      × (((from s).type ≡ absolute) ↔ (contains scheme_mark s ≡ true))
      × (((from s).type ≡ authority)
          ↔ ((s ≢ []) × (s ≢ codes "*") × (contains scheme_mark s ≡ false) × (find b'/' s ≡ none)))
unfolding from
from-type_iff [] = ground (arith, contains_nil, bytes_eq_iff [] (codes "*"))
from-type_iff (c ∷ s) =
    ground (arith, bytes_eq_iff (c ∷ s) (codes "*"), contains_asterisk, from_origin_kind (c ∷ s))

-- What is left for an ORIGIN target: no parameters, or a query behind the path.
abbrev pub Splits : Bytes → Bytes → Params → Type 0
Splits s path params =
    ((s ≡ path) × (params ≡ [])) ⊎ ((query : Bytes) × (s ≡ path ++ b'?' ∷ query) × (params ≢ []))

finish_query-origin :
    (path : Bytes) (ps : Params)
    → (finish_query path ps).type ≡ origin
    → ((finish_query path ps).path ≡ path) × ((finish_query path ps).params ≡ ps) × (ps ≢ [])
unfolding finish_query
finish_query-origin path [] e = cc
finish_query-origin path (p ∷ ps) e = (refl, refl, λ h. cc)

from_origin-Splits :
    (s : Bytes)
    → (from_origin s).type ≡ origin
    → Lacks b'?' (from_origin s).path × Splits s (from_origin s).path (from_origin s).params
unfolding from_origin
from_origin-Splits s e = elim (Option-cases (find b'?' s)) [
  | inl missed ↦ rw (missed, from_origin) (Lacks-find b'?' s missed, inl (refl, refl))
  | inr (i, found) ↦
      let query = drop (i + 1) s in
      let ps = add_params [] (getlines [] query) in
      let (same_path, same_params, some_param) =
        finish_query-origin (take i s) ps (rw (found, from_origin) at e) in
      let (before, _, behind) = find-eq-some b'?' s i found in
      rw (found, from_origin)
        (rw (same_path, same_params)
          (
            before,
            inr (
              query,
              sym (take-append-drop i s) ∙ ap (◌++◌ (take i s)) (rw add-one behind),
              some_param,
            ),
          ))
]

-- Only the last branch of `from` gives ORIGIN.
from-eq-from_origin : (s : Bytes) → (from s).type ≡ origin → from s ≡ from_origin s
unfolding from
from-eq-from_origin s e = ground arith

-- The path of an ORIGIN target is the part before the first question mark: it has none itself, and
-- behind it stands nothing, or a question mark and a query that gives at least one parameter.
pub from-Splits :
    (s : Bytes)
    → (from s).type ≡ origin
    → Lacks b'?' (from s).path × Splits s (from s).path (from s).params
from-Splits s e =
    let same = from-eq-from_origin s e in rw same (from_origin-Splits s (rw same at e))
