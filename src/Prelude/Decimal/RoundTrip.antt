-- ===== src/Prelude/Decimal/RoundTrip.antt =====
-- `std::stoi` on the digits that `std::to_string` writes.
use Prim.Native.Nat.{ℕ, zero, suc, ◌+◌, ◌-◌, ◌*◌, ◌/◌, ◌%◌, ◌≤◌, ◌<◌}
use mathlib.Core.Path.{◌≡◌, refl, ◌∙◌, ap, sym, subst}
use mathlib.Core.Bool.{true, false}
use mathlib.Core.Logic.{inl, inr}
use mathlib.Core.List.{[], ◌∷◌, ◌++◌}
use native.Mathlib.Omega.{arith}
use coroutine_http_server.Prelude.Tests.{ltb, ltb→lt, Bool-cases}
use coroutine_http_server.Prelude.Lists.{All, All-append}
use coroutine_http_server.Prelude.Strings.{Bytes}
use coroutine_http_server.Prelude.Result.{ok}
use coroutine_http_server.Prelude.Decimal.{
  digits, to_string, value_from, unsigned_part, signed_number, stoi, is_digit, pos, int_max,
}

abbrev pub AreDigits : Bytes → Type 0
AreDigits = All (λ c. is_digit c ≡ true)

-- No digit comes first.
abbrev pub NoDigit : Bytes → Type 0
NoDigit [] = Unit
NoDigit (c ∷ s) = is_digit c ≡ false

pub digits-AreDigits : (fuel n : ℕ) → AreDigits (digits fuel n)
unfolding digits
digits-AreDigits zero n = tt
digits-AreDigits (suc fuel) n = elim (Bool-cases (ltb n 10)) [
  | inl e ↦ rw e (ground arith, tt)
  | inr e ↦
      rw e
        (All-append _ (digits fuel (n / 10)) _ (digits-AreDigits fuel (n / 10)) (ground arith, tt))
]

value_from-append :
    (n : ℕ) (s t : Bytes) → AreDigits s → value_from n (s ++ t) ≡ value_from (value_from n s) t
unfolding value_from
value_from-append n [] t h = refl
value_from-append n (c ∷ s) t h = rw (h.0) (value_from-append (n * 10 + (c - 48)) s t h.1)

value_from-NoDigit : (n : ℕ) (s : Bytes) → NoDigit s → value_from n s ≡ n
unfolding value_from
value_from-NoDigit n [] h = refl
value_from-NoDigit n (c ∷ s) h = rw h refl

value_from_digit : (n d : ℕ) → d < 10 → value_from n ((48 + d) ∷ []) ≡ n * 10 + d
unfolding value_from
value_from_digit n d h = ground arith

value_from-digits : (fuel n : ℕ) → n < fuel → value_from 0 (digits fuel n) ≡ n
unfolding digits
value_from-digits zero n h = omega arith
value_from-digits (suc fuel) n h = elim (Bool-cases (ltb n 10)) [
  | inl e ↦ rw e (value_from_digit 0 n (ltb→lt n 10 e) ∙ omega arith)
  | inr e ↦
      let big : 10 ≤ n = ground arith in
      rw
        (
          e,
          value_from-append 0 (digits fuel (n / 10)) ((48 + n % 10) ∷ [])
              (digits-AreDigits fuel (n / 10)),
          value_from-digits fuel (n / 10) (omega arith),
          value_from_digit (n / 10) (n % 10) (omega arith),
        )
        (omega arith)
]

append_one : (s : Bytes) (c : ℕ) → (d : ℕ) × (t : Bytes) × (s ++ c ∷ [] ≡ d ∷ t)
append_one [] c = (c, [], refl)
append_one (d ∷ s) c = (d, s ++ c ∷ [], refl)

-- There is a first digit.
pub digits_cons : (fuel n : ℕ) → (d : ℕ) × (t : Bytes) × (digits (suc fuel) n ≡ d ∷ t)
unfolding digits
digits_cons fuel n = elim (Bool-cases (ltb n 10)) [
  | inl e ↦ rw e (48 + n, [], refl)
  | inr e ↦ rw e (append_one (digits fuel (n / 10)) (48 + n % 10))
]

stoi_digits :
    (d : ℕ) (t rest : Bytes) (n : ℕ)
    → AreDigits (d ∷ t)
    → NoDigit rest
    → value_from 0 (d ∷ t) ≡ n
    → n ≤ int_max
    → stoi ((d ∷ t) ++ rest) ≡ ok (pos n)
unfolding stoi signed_number unsigned_part
stoi_digits d t rest n h k e bound =
    let all : value_from 0 (d ∷ (t ++ rest)) ≡ n =
      value_from-append 0 (d ∷ t) rest h ∙ (rw e (value_from-NoDigit n rest k)) in
    let digit : is_digit d ≡ true = h.0 in ground (arith, all, digit)

-- `stoi` reads a number that an `int` can hold, up to what is not a digit.
pub stoi-to_string :
    (n : ℕ) (rest : Bytes) → n ≤ int_max → NoDigit rest → stoi (to_string n ++ rest) ≡ ok (pos n)
unfolding to_string
stoi-to_string n rest bound k =
    let (d, t, e) = digits_cons n n in
    rw e (
      stoi_digits d t rest n (subst AreDigits e (digits-AreDigits (suc n) n)) k
        (ap (value_from 0) (sym e) ∙ value_from-digits (suc n) n (omega arith)) bound)

pub to_string-AreDigits : (n : ℕ) → AreDigits (to_string n)
unfolding to_string
to_string-AreDigits n = digits-AreDigits (suc n) n

pub to_string_cons : (n : ℕ) → (d : ℕ) × (t : Bytes) × (to_string n ≡ d ∷ t)
unfolding to_string
to_string_cons n = digits_cons n n
