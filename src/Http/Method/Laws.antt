-- ===== src/Http/Method/Laws.antt =====
-- The names of the methods and the valid methods, of lib/include/http.hpp.
use mathlib.Core.Bool.{false≢true}
use coroutine_http_server.Prelude.{
  Bool, true, false, ◌≡◌, ◌≢◌, ◌↔◌, ◌⊎◌, inl, inr, refl, sym, ◌∙◌, arith, Bytes, Bool-cases,
}
use coroutine_http_server.Utility.Compare.{equal}
use coroutine_http_server.Utility.Compare.Order.{lowered, equal_iff}
use coroutine_http_server.Utility.Ctype.{tolower}
use coroutine_http_server.Http.Method.{
  HttpMethod, invalid, get, post, put, delete, patch, head, options, any, valid, http_method,
  http_method_to_string, valid_http_method, method_eq, method_eq_iff,
}

-- A method with a name of its own: all enumerators but INVALID and VALID.
abbrev pub IsNamed : HttpMethod → Type 0
IsNamed m = (m ≢ invalid) × (m ≢ valid)

-- `equal` against a name of the table, as an equation.
abbrev Names : Bytes → HttpMethod → Type 0
Names s m =
    (equal (http_method_to_string m) s ≡ true) ↔ (lowered (http_method_to_string m) ≡ lowered s)

names : (s : Bytes) (m : HttpMethod) → Names s m
names s m = equal_iff (http_method_to_string m) s

-- A name stands for a method exactly when it is that method's name up to case.
pub http_method_iff :
    (s : Bytes) (m : HttpMethod)
    → IsNamed m
    → (http_method s ≡ m) ↔ (equal (http_method_to_string m) s ≡ true)
unfolding http_method http_method_to_string tolower
http_method_iff s get h = ground (
  arith,
  names s get,
  names s post,
  names s put,
  names s delete,
  names s patch,
  names s head,
  names s options,
  names s any,
)
http_method_iff s m h = ground (
  arith,
  names s get,
  names s post,
  names s put,
  names s delete,
  names s patch,
  names s head,
  names s options,
  names s any,
)

http_method-ne-valid : (s : Bytes) → http_method s ≢ valid
unfolding http_method
http_method-ne-valid s = ground arith

-- A name that is no method's is INVALID, and only such a name.
pub http_method-invalid_iff :
    (s : Bytes)
    → (http_method s ≡ invalid)
      ↔ ((m : HttpMethod) → IsNamed m → equal (http_method_to_string m) s ≡ false)
http_method-invalid_iff s = (
  λ e m h. elim (Bool-cases (equal (http_method_to_string m) s)) [
    | inl found ↦ absurd (h.0 (sym ((http_method_iff s m h).1 found) ∙ e))
    | inr missed ↦ missed
  ],
  λ none_equal. elim (Bool-cases (method_eq (http_method s) invalid)) [
    | inl e ↦ (method_eq_iff _ _).0 e
    | inr other ↦
        let h : IsNamed (http_method s) = (
          λ e. absurd (false≢true (sym other ∙ (method_eq_iff _ _).1 e)),
          http_method-ne-valid s,
        ) in
        absurd (
          false≢true
            (sym (none_equal (http_method s) h) ∙ (http_method_iff s (http_method s) h).0 refl))
  ],
)

-- The valid methods are those of one bit among the seven, and the wildcard if it is allowed.
pub valid_http_method_iff :
    (m : HttpMethod) (allow_wildcard : Bool)
    → (valid_http_method m allow_wildcard ≡ true)
      ↔ (IsNamed m × ((m ≢ any) ⊎ (allow_wildcard ≡ true)))
unfolding valid_http_method
valid_http_method_iff get allow_wildcard = ground arith
valid_http_method_iff m allow_wildcard = ground arith
