-- ===== src/Http/Method.antt =====
-- `HTTPMethod`, `http_method`, `http_method_to_string` and `valid_http_method` of
-- lib/include/http.hpp.
pub mod Laws
use Prim.Native.Nat.{bit_and}
use coroutine_http_server.Prelude.{
  ℕ, ◌+◌, ◌-◌, ◌%◌, ◌^◌, Bool, not, true, false, ◌&&◌, ◌||◌, List, [], ◌∷◌, ◌≡◌, ◌↔◌, ◌==◌,
  if◌then◌else◌, arith, Bytes, codes,
}
use coroutine_http_server.Utility.Compare.{equal}
use coroutine_http_server.UnorderedMap.{KeyEq}

-- The enumerators of `HTTPMethod`.
pub data HttpMethod : Type 0 where
  invalid get post put delete patch head options any valid : HttpMethod

-- `static_cast<std::uint32_t>`
abbrev pub to_uint32 : HttpMethod → ℕ
to_uint32 invalid = 0
to_uint32 get = 0x1
to_uint32 post = 0x2
to_uint32 put = 0x4
to_uint32 delete = 0x8
to_uint32 patch = 0x10
to_uint32 head = 0x20
to_uint32 options = 0x40
to_uint32 any = 0x80
to_uint32 valid = 0x7f

-- `a == b`
unfoldable pub method_eq : HttpMethod → HttpMethod → Bool
method_eq a b = to_uint32 a == to_uint32 b

pub method_eq_iff : (a b : HttpMethod) → (method_eq a b ≡ true) ↔ (a ≡ b)
unfolding method_eq
method_eq_iff a b = ground arith

instance abbrev pub method_key : KeyEq HttpMethod
method_key = record { beq = method_eq; beq_iff = method_eq_iff }

-- The static `method_map`.
abbrev pub method_map : List (Bytes × HttpMethod)
method_map =
    (codes "GET", get)
    ∷ (codes "POST", post)
    ∷ (codes "PUT", put)
    ∷ (codes "DELETE", delete)
    ∷ (codes "PATCH", patch)
    ∷ (codes "HEAD", head)
    ∷ (codes "OPTIONS", options)
    ∷ (codes "*", any)
    ∷ []

-- `method_map.find(method)` by `cmp::CaseInsensitiveEqual`, and INVALID for its end.
unfoldable pub find_method : Bytes → List (Bytes × HttpMethod) → HttpMethod
find_method s [] = invalid
find_method s ((name, m) ∷ entries) = if equal name s then m else find_method s entries

-- Both overloads of `http_method`.
unfoldable pub http_method : Bytes → HttpMethod
unfolding find_method
http_method s = find_method s method_map

unfoldable pub http_method_to_string : HttpMethod → Bytes
http_method_to_string get = codes "GET"
http_method_to_string post = codes "POST"
http_method_to_string put = codes "PUT"
http_method_to_string delete = codes "DELETE"
http_method_to_string patch = codes "PATCH"
http_method_to_string head = codes "HEAD"
http_method_to_string options = codes "OPTIONS"
http_method_to_string any = codes "*"
http_method_to_string _ = codes "INVALID"

abbrev uint32_mod : ℕ
uint32_mod = 2 ^ 32

-- `~valid`
abbrev not_valid : ℕ
not_valid = uint32_mod - 1 - to_uint32 valid

unfoldable pub valid_http_method : HttpMethod → Bool → Bool
unfolding method_eq
valid_http_method method allow_wildcard =
    let m : ℕ = to_uint32 method in
    (bit_and m not_valid == 0 && not (m == 0) && bit_and m ((m + uint32_mod - 1) % uint32_mod) == 0)
    || (allow_wildcard && method_eq method any)
