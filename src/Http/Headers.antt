-- ===== src/Http/Headers.antt =====
-- `HTTPHeaders` of lib/include/http.hpp: a `std::map` by `cmp::CaseInsensitiveLess`, as the list of its
-- entries in their order.
pub mod Order
use coroutine_http_server.Prelude.{Option, none, some, List, [], ◌∷◌, if◌then◌else◌, Bytes, codes}
use coroutine_http_server.Utility.Compare.{less}

abbrev pub Headers : Type 0
Headers = List (Bytes × Bytes)

-- `headers.insert_or_assign(name, value)`: an entry that is there keeps its name.
unfoldable pub insert_or_assign : Bytes → Bytes → Headers → Headers
insert_or_assign name value [] = (name, value) ∷ []
insert_or_assign name value ((k, v) ∷ headers) =
    if less name k
    then (name, value) ∷ (k, v) ∷ headers
    else if less k name
    then (k, v) ∷ insert_or_assign name value headers
    else (k, value) ∷ headers

-- `headers.find(name)`
unfoldable pub find_header : Bytes → Headers → Option Bytes
find_header name [] = none
find_header name ((k, v) ∷ headers) =
    let later = find_header name headers in
    if less k name then later else if less name k then none else some v

abbrev pub content_length : Bytes
content_length = codes "Content-Length"
