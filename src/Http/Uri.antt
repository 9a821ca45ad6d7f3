-- ===== src/Http/Uri.antt =====
-- `HTTPRequest::ParsedURI` of lib/include/http.hpp. `npos` is `none`, and `res` is built at each return.
pub mod RoundTrip
pub mod Kinds
use coroutine_http_server.Prelude.{
  ℕ, ◌+◌, Bool, true, false, not, ◌&&◌, Option, none, some, List, [], ◌∷◌, ◌++◌, ◌==◌,
  if◌then◌else◌, Bytes, codes, bytes_eq, is_empty, find, contains, take, drop,
}
use coroutine_http_server.UnorderedMap.{bytes_key, assign}

pub data TargetType : Type 0 where
  origin absolute authority asterisk invalid : TargetType

abbrev pub Params : Type 0
Params = List (Bytes × Bytes)

pub record ParsedUri : Type 0 where
  pub type : TargetType
  pub path : Bytes
  pub params : Params

-- The strings that `std::getline(param_stream, pair, '&')` gives, one after another; `pair` holds
-- what has been read of the current one. A string of no bytes at the end of the stream is not given.
unfoldable pub getlines : Bytes → Bytes → List Bytes
getlines pair [] = if is_empty pair then [] else pair ∷ []
getlines pair (c ∷ s) = elim (c == b'&') [
  | true ↦ pair ∷ getlines [] s
  | false ↦ getlines (pair ++ c ∷ []) s
]

-- The body of the loop over the pairs.
unfoldable pub add_param : Params → Bytes → Params
add_param params pair = elim (find b'=' pair) [
  | none ↦ params
  | some equal_pos ↦ assign (take equal_pos pair) (drop (equal_pos + 1) pair) params
]

unfoldable pub add_params : Params → List Bytes → Params
unfolding add_param
add_params params [] = params
add_params params (pair ∷ pairs) = add_params (add_param params pair) pairs

-- The end of `from`, on the parameters read.
unfoldable pub finish_query : Bytes → Params → ParsedUri
finish_query path [] = record { type = invalid; path = []; params = [] }
finish_query path (p ∷ params) = record { type = origin; path = path; params = p ∷ params }

unfoldable pub from_origin : Bytes → ParsedUri
unfolding getlines add_params finish_query
from_origin s = elim (find b'?' s) [
  | none ↦ record { type = origin; path = s; params = [] }
  | some query_start ↦
      finish_query (take query_start s) (add_params [] (getlines [] (drop (query_start + 1) s)))
]

abbrev pub scheme_mark : Bytes
scheme_mark = codes "://"

abbrev pub is_none : Option ℕ → Bool
is_none none = true
is_none (some _) = false

-- `ParsedURI::from`
unfoldable pub from : Bytes → ParsedUri
unfolding from_origin
from s =
    if is_empty s
    then record { type = invalid; path = []; params = [] }
    else if bytes_eq s (codes "*")
    then record { type = asterisk; path = []; params = [] }
    else if not (contains scheme_mark s) && is_none (find b'/' s)
    then record { type = authority; path = s; params = [] }
    else if contains scheme_mark s
    then record { type = absolute; path = s; params = [] }
    else from_origin s
