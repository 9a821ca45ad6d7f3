-- ===== src/Http/HeaderBody/Sent.antt =====
-- The headers and the body as `append_string` writes them, of lib/include/http.hpp, line by line.
use mathlib.Core.Path.{subst}
use coroutine_http_server.Prelude.{
  ℕ, ◌≤◌, false, ◌&&◌, ◌≡◌, refl, ap, ◌∙◌, [], ◌∷◌, ◌++◌, append_assoc, arith, All, All-append,
  Bytes, length, Lacks, is_empty,
}
use coroutine_http_server.Prelude.Decimal.{to_string, int_max}
use coroutine_http_server.Prelude.Decimal.RoundTrip.{AreDigits, to_string-AreDigits, to_string_cons}
use coroutine_http_server.Utility.Ctype.{isalnum, isspace}
use coroutine_http_server.Utility.Compare.{equal}
use coroutine_http_server.Http.Headers.{Headers, insert_or_assign, content_length}
use coroutine_http_server.Http.Headers.Order.{IsMap, assign_all, assign_all_again}
use coroutine_http_server.Http.HeaderBody.{
  is_name, skip_spaces, trim_back, no_headers, crlf, append_string,
}
use coroutine_http_server.Http.HeaderBody.Fields.{
  IsField, AreFields, lines_of, append_headers-lines,
}

-- Headers and a body that a reader can take again: there is a header line, every entry can stand on a
-- line, no entry is a Content-Length, and the length of the body is an `int`.
pub record IsSendable (headers : Headers) (body : Bytes) : Type 0 where
  pub is_map : IsMap headers
  pub are_fields : AreFields headers
  pub no_length : All (λ p. equal p.0 content_length ≡ false) headers
  pub some_line : (no_headers headers && is_empty body) ≡ false
  pub fits : length body ≤ int_max

-- What a reader then holds: a body brings its length.
abbrev pub received : Headers → Bytes → Headers
received headers [] = headers
received headers (c ∷ body) =
    insert_or_assign content_length (to_string (length (c ∷ body))) headers

-- The entries of the header lines.
abbrev pub sent_fields : Headers → Bytes → Headers
sent_fields headers [] = headers
sent_fields headers (c ∷ body) = headers ++ (content_length, to_string (length (c ∷ body))) ∷ []

pub digits-Lacks : (s : Bytes) → AreDigits s → Lacks 10 s
digits-Lacks [] h = tt
digits-Lacks (c ∷ s) h = (ground arith, digits-Lacks s h.1)

digits-trim_back : (s : Bytes) → AreDigits s → trim_back s ≡ s
unfolding trim_back isspace
digits-trim_back [] h = refl
digits-trim_back (c ∷ s) h = ground (arith, digits-trim_back s h.1)

digits-IsField : (d : ℕ) (t : Bytes) → AreDigits (d ∷ t) → IsField content_length (d ∷ t)
unfolding is_name isalnum skip_spaces isspace
digits-IsField d t h = record {
  name = refl;
  some_value = refl;
  one_line = digits-Lacks (d ∷ t) h;
  no_space_first = ground arith;
  no_space_last = digits-trim_back (d ∷ t) h;
}

length-IsField : (n : ℕ) → IsField content_length (to_string n)
length-IsField n =
    let (d, t, e) = to_string_cons n in
    rw e (digits-IsField d t (subst AreDigits e (to_string-AreDigits n)))

pub sent_fields-AreFields :
    (headers : Headers) (body : Bytes) → AreFields headers → AreFields (sent_fields headers body)
sent_fields-AreFields headers [] f = f
sent_fields-AreFields headers (c ∷ body) f =
    All-append _ headers _ f (length-IsField (length (c ∷ body)), tt)

assign_all_append :
    (fields acc : Headers) (k v : Bytes)
    → assign_all (fields ++ (k, v) ∷ []) acc ≡ insert_or_assign k v (assign_all fields acc)
unfolding assign_all
assign_all_append [] acc k v = refl
assign_all_append ((j, w) ∷ fields) acc k v =
    assign_all_append fields (insert_or_assign j w acc) k v

pub sent_fields-received :
    (headers : Headers) (body : Bytes)
    → IsMap headers
    → assign_all (sent_fields headers body) [] ≡ received headers body
sent_fields-received headers [] m = assign_all_again headers m
sent_fields-received headers (c ∷ body) m =
    assign_all_append headers [] content_length (to_string (length (c ∷ body)))
    ∙ ap (insert_or_assign content_length (to_string (length (c ∷ body))))
        (assign_all_again headers m)

lines_of-append : (a b : Headers) → lines_of (a ++ b) ≡ lines_of a ++ lines_of b
lines_of-append [] b = refl
lines_of-append ((k, v) ∷ a) b = rw (lines_of-append a b) (simp (append_assoc))

-- What `append_string` appends: the header lines, an empty line and the body.
pub append_string-lines :
    (s : Bytes) (headers : Headers) (body : Bytes)
    → All (λ p. equal p.0 content_length ≡ false) headers
    → append_string s headers body ≡ s ++ ((lines_of (sent_fields headers body) ++ crlf) ++ body)
unfolding append_string
append_string-lines s headers [] h = rw (append_headers-lines s headers h) (simp (append_assoc))
append_string-lines s headers (c ∷ body) h =
    rw
      (
        append_headers-lines s headers h,
        lines_of-append headers ((content_length, to_string (length (c ∷ body))) ∷ []),
      )
      (simp (append_assoc))
