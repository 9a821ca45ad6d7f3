-- ===== src/Http/HeaderBody/Fields.antt =====
-- Header lines as `HTTPHeaderBody` of lib/include/http.hpp writes and parses them.
use coroutine_http_server.Prelude.{
  ℕ, suc, ◌+◌, true, false, ◌≡◌, refl, sym, ◌∙◌, [], ◌∷◌, ◌++◌, append_assoc, append-nil, arith,
  some, All, Bytes, codes, length, Lacks, Lacks-append, find, find_first, take-find, drop-find,
  is_empty, drop,
}
use coroutine_http_server.Prelude.Result.{ok}
use coroutine_http_server.Utility.Ctype.{isalnum, isspace}
use coroutine_http_server.Utility.Compare.{equal}
use coroutine_http_server.Http.Headers.{Headers, content_length}
use coroutine_http_server.Http.HeaderBody.{
  is_name, is_name_char, skip_spaces, trim_back, parse_header, colon, crlf, append_headers,
}

-- An entry that can stand on a line: a name that the reader takes, and a value that has a character,
-- has no newline and neither begins nor ends with white space.
pub record IsField (k v : Bytes) : Type 0 where
  pub name : is_name k ≡ true
  pub some_value : is_empty v ≡ false
  pub one_line : Lacks 10 v
  pub no_space_first : skip_spaces v ≡ v
  pub no_space_last : trim_back v ≡ v

abbrev pub AreFields : Headers → Type 0
AreFields = All (λ p. IsField p.0 p.1)

abbrev pub line_of_field : Bytes → Bytes → Bytes
line_of_field k v = (k ++ codes ": ") ++ v

-- The header lines, each with its end.
abbrev pub lines_of : Headers → Bytes
lines_of [] = []
lines_of ((k, v) ∷ headers) = line_of_field k v ++ (crlf ++ lines_of headers)

pub is_name-Lacks : (c : ℕ) (k : Bytes) → is_name_char c ≡ false → is_name k ≡ true → Lacks c k
unfolding is_name
is_name-Lacks c [] h e = tt
is_name-Lacks c (x ∷ k) h e = ground (arith, is_name-Lacks c k h)

pub field_nonempty : (k v : Bytes) → is_empty (line_of_field k v) ≡ false
field_nonempty [] v = refl
field_nonempty (c ∷ k) v = refl

pub field-Lacks : (k v : Bytes) → IsField k v → Lacks 10 (line_of_field k v)
unfolding isalnum
field-Lacks k v f =
    Lacks-append 10 (k ++ codes ": ") v
      (Lacks-append 10 k (codes ": ") (is_name-Lacks 10 k refl f.name) (refl, (refl, tt)))
      f.one_line

after_colon :
    (k v : Bytes) → skip_spaces v ≡ v → skip_spaces (drop (length k + 1) (k ++ colon ∷ 32 ∷ v)) ≡ v
unfolding skip_spaces isspace
after_colon k v e =
    let size : length k + 1 ≡ suc (length k) = omega arith in
    rw (size, drop-find k (32 ∷ v) colon) e

parse_header-parts :
    (k v : Bytes)
    → IsField k v
    → find colon (k ++ colon ∷ 32 ∷ v) ≡ some (length k)
    → parse_header (k ++ colon ∷ 32 ∷ v) ≡ ok (k, v)
unfolding parse_header
parse_header-parts k v f found =
    rw
      (
        parse_header,
        found,
        after_colon k v f.no_space_first,
        take-find k (colon ∷ 32 ∷ v),
        f.no_space_last,
        f.name,
        f.some_value,
      )
      refl

-- The reader finds the entry in its line.
pub parse_header-field : (k v : Bytes) → IsField k v → parse_header (line_of_field k v) ≡ ok (k, v)
unfolding isalnum
parse_header-field k v f =
    rw (append_assoc k (codes ": ") v)
      (parse_header-parts k v f (find_first colon k (32 ∷ v) (is_name-Lacks colon k refl f.name)))

pub append_headers-lines :
    (s : Bytes) (headers : Headers)
    → All (λ p. equal p.0 content_length ≡ false) headers
    → append_headers s headers ≡ s ++ lines_of headers
unfolding append_headers
append_headers-lines s [] h = sym (append-nil s)
append_headers-lines s ((k, v) ∷ headers) h = rw (h.0) (
    append_headers-lines ((((s ++ k) ++ codes ": ") ++ v) ++ crlf) headers h.1
    ∙ regroup s k (codes ": ") v crlf (lines_of headers))
  where
    regroup :
        (s k colon v end rest : Bytes)
        → ((((s ++ k) ++ colon) ++ v) ++ end) ++ rest ≡ s ++ (((k ++ colon) ++ v) ++ (end ++ rest))
    regroup s k colon v end rest = simp (append_assoc)
