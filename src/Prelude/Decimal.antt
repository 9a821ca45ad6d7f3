-- ===== src/Prelude/Decimal.antt =====
-- `std::to_string` of a number that is not negative, `std::stoi` and `std::stoll`.
pub mod RoundTrip
use Prim.Native.Nat.{ℕ, zero, suc, ◌+◌, ◌-◌, ◌*◌, ◌/◌, ◌%◌}
use Prim.Native.String.{String}
use mathlib.Core.Bool.{Bool, ◌&&◌, ◌||◌, not}
use mathlib.Core.List.{[], ◌∷◌, ◌++◌}
use coroutine_http_server.Prelude.Tests.{◌==◌, ltb, leb, if◌then◌else◌}
use coroutine_http_server.Prelude.Strings.{Bytes}
use coroutine_http_server.Prelude.Result.{Result, ok, throws, invalid_argument, out_of_range}

-- The decimal digits of a number; the fuel counts them.
unfoldable pub digits : ℕ → ℕ → Bytes
digits zero n = []
digits (suc fuel) n =
    let more = digits fuel (n / 10) in
    if ltb n 10 then (48 + n) ∷ [] else more ++ (48 + n % 10) ∷ []

-- A number has no more digits than it is large, and one more.
unfoldable pub to_string : ℕ → Bytes
unfolding digits
to_string n = digits (suc n) n

-- An `int`: `negsuc n` is -(n + 1).
pub data ℤ : Type 0 where
  pos negsuc : ℕ → ℤ

-- -n
abbrev pub negate : ℕ → ℤ
negate zero = pos 0
negate (suc n) = negsuc n

abbrev pub is_digit : ℕ → Bool
is_digit c = leb 48 c && leb c 57

abbrev pub is_blank : ℕ → Bool
is_blank c = c == 32 || (leb 9 c && leb c 13)

-- The value of the digits at the front, from the value so far.
unfoldable pub value_from : ℕ → Bytes → ℕ
value_from n [] = n
value_from n (c ∷ s) =
    let n' = (if is_digit c then n * 10 + (c - 48) else n) in
    let rest = value_from n' s in if is_digit c then rest else n

abbrev pub int_max : ℕ
int_max = 2147483647

-- The digits behind the sign, for the function of that name; the limit is that of the sign.
unfoldable pub unsigned_part : String → (ℕ → ℤ) → ℕ → Bytes → Result ℤ
unfolding value_from
unsigned_part name sign limit [] = throws (invalid_argument name)
unsigned_part name sign limit (c ∷ s) =
    if not (is_digit c)
    then throws (invalid_argument name)
    else if leb (value_from 0 (c ∷ s)) limit
    then ok (sign (value_from 0 (c ∷ s)))
    else throws (out_of_range name)

-- A number, up to the greatest of its type.
unfoldable pub signed_number : String → ℕ → Bytes → Result ℤ
unfolding unsigned_part
signed_number name max [] = throws (invalid_argument name)
signed_number name max (c ∷ s) =
    let after_blank = signed_number name max s in
    if is_blank c
    then after_blank
    else if c == 45
    then unsigned_part name negate (suc max) s
    else if c == 43
    then unsigned_part name pos max s
    else unsigned_part name pos max (c ∷ s)

unfoldable pub stoi : Bytes → Result ℤ
unfolding signed_number
stoi s = signed_number "stoi" int_max s

abbrev pub long_long_max : ℕ
long_long_max = 9223372036854775807

unfoldable pub stoll : Bytes → Result ℤ
unfolding signed_number
stoll s = signed_number "stoll" long_long_max s
