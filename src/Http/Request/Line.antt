-- ===== src/Http/Request/Line.antt =====
-- The request line of `HTTPRequest`, as `write_to` writes it and `read_from` checks it, of
-- lib/include/http.hpp.
use coroutine_http_server.Prelude.{
  ℕ, true, false, ◌≡◌, refl, ◌∙◌, ◌≢◌, [], ◌∷◌, ◌++◌, append_assoc, ends_with_append, Bytes, codes,
  arith, All,
}
use coroutine_http_server.Prelude.Result.{ok}
use coroutine_http_server.Utility.Ctype.{isspace}
use coroutine_http_server.Http.Method.{http_method, method_eq_iff, invalid}
use coroutine_http_server.Http.HeaderBody.{skip_spaces, crlf}
use coroutine_http_server.Http.Request.{
  Request, request_line, extract, word, http_1_1, line_of, or_empty,
}

-- A string without spaces.
abbrev pub IsWord : Bytes → Type 0
IsWord s = (s ≢ []) × All (λ c. isspace c ≡ false) s

word_append :
    (w : Bytes) (c : ℕ) (rest : Bytes)
    → All (λ c. isspace c ≡ false) w
    → isspace c ≡ true
    → word (w ++ c ∷ rest) ≡ (w, c ∷ rest)
unfolding word
word_append [] c rest h space = rw space refl
word_append (d ∷ w) c rest h space = rw (h.0, word_append w c rest h.1 space) refl

extract_word :
    (target w : Bytes) (c : ℕ) (rest : Bytes)
    → IsWord w
    → isspace c ≡ true
    → extract target (w ++ c ∷ rest) ≡ (w, c ∷ rest)
unfolding extract skip_spaces
extract_word target [] c rest h space = elim (h.0 refl) [ ]
extract_word target (d ∷ w) c rest h space = rw (h.1.0) (word_append (d ∷ w) c rest h.1 space)

extract_space : (target s : Bytes) → extract target (32 ∷ s) ≡ extract target s
unfolding extract skip_spaces isspace
extract_space target s = refl

at_version :
    (method uri : Bytes)
    → (method ++ 32 ∷ (uri ++ 32 ∷ [])) ++ http_1_1 ≡ method ++ 32 ∷ (uri ++ 32 ∷ http_1_1)
at_version method uri = simp (append_assoc)

pub request_line-words :
    (method uri held held' : Bytes)
    → http_method method ≢ invalid
    → IsWord method
    → IsWord uri
    → request_line held held' (method ++ 32 ∷ (uri ++ 32 ∷ http_1_1)) ≡ ok (method, uri)
unfolding request_line isspace
request_line-words method uri held held' known m u =
    let version = ends_with_append (method ++ 32 ∷ (uri ++ 32 ∷ [])) http_1_1 in
    let first = extract_word held method 32 (uri ++ 32 ∷ http_1_1) m refl in
    let second =
      extract_space held' (uri ++ 32 ∷ http_1_1) ∙ extract_word held' uri 32 http_1_1 u refl in
    rw (← (at_version method uri), version, at_version method uri, first, second)
      (ground (arith, method_eq_iff (http_method method) invalid, known))

or_empty_word : (s : Bytes) → IsWord s → or_empty s ≡ s
or_empty_word [] h = elim (h.0 refl) [ ]
or_empty_word (c ∷ s) h = refl

regroup :
    (m u : Bytes)
    → (((m ++ codes " ") ++ u) ++ codes " HTTP/1.1") ++ crlf
      ≡ (m ++ 32 ∷ (u ++ 32 ∷ http_1_1)) ++ crlf
regroup m u = simp (append_assoc)

pub line_of-words :
    (req : Request)
    → IsWord req.method
    → IsWord req.uri
    → line_of req [] ≡ (req.method ++ 32 ∷ (req.uri ++ 32 ∷ http_1_1)) ++ crlf
unfolding line_of
line_of-words req m u =
    rw (or_empty_word req.method m, or_empty_word req.uri u) (regroup req.method req.uri)
