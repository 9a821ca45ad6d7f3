-- ===== src/Prelude/Strings.antt =====
-- `std::string` and `std::string_view` as lists of bytes, with the members that the program calls.
use Prim.Native.Char.{code}
use Prim.Native.String.{String}
use Prim.Native.Nat.{ℕ, suc}
use mathlib.Core.Path.{◌≡◌, refl}
use mathlib.Core.Logic.{◌↔◌}
use mathlib.Core.Bool.{Bool, true, false, ◌&&◌}
use mathlib.Core.Option.{Option, none, some}
use mathlib.Core.List.{List, [], ◌∷◌, ◌++◌}
use native.Mathlib.Omega.{arith}
use coroutine_http_server.Prelude.Tests.{◌==◌, if◌then◌else◌}

abbrev pub Bytes : Type 0
Bytes = List ℕ

-- The bytes of an ASCII literal.
abbrev pub codes : String → Bytes
codes String.[] = []
codes (String.◌∷◌ c s) = code c ∷ codes s

-- `a == b`
unfoldable pub bytes_eq : Bytes → Bytes → Bool
bytes_eq [] [] = true
bytes_eq (x ∷ xs) (y ∷ ys) = x == y && bytes_eq xs ys
bytes_eq _ _ = false

pub bytes_eq_iff : (a b : Bytes) → (bytes_eq a b ≡ true) ↔ (a ≡ b)
unfolding bytes_eq
bytes_eq_iff (x ∷ a) (y ∷ b) = ground (arith, bytes_eq_iff a b)
bytes_eq_iff _ _ = ground arith

pub bytes_eq_refl : (a : Bytes) → bytes_eq a a ≡ true
bytes_eq_refl a = (bytes_eq_iff a a).1 refl

-- `s.empty()`
abbrev pub is_empty : Bytes → Bool
is_empty [] = true
is_empty (_ ∷ _) = false

-- `s.starts_with(prefix)`
unfoldable pub starts_with : Bytes → Bytes → Bool
starts_with s [] = true
starts_with [] (_ ∷ _) = false
starts_with (x ∷ s) (y ∷ p) = x == y && starts_with s p

-- `s.ends_with(suffix)`
unfoldable pub ends_with : Bytes → Bytes → Bool
ends_with [] suffix = is_empty suffix
ends_with (c ∷ s) suffix = if bytes_eq (c ∷ s) suffix then true else ends_with s suffix

-- `s.back()`, none for the empty string
abbrev pub back : Bytes → Option ℕ
back [] = none
back (c ∷ []) = some c
back (c ∷ d ∷ s) = back (d ∷ s)

-- `s.find(ch)`, none for npos
unfoldable pub find : ℕ → Bytes → Option ℕ
find c [] = none
find c (x ∷ s) = if x == c then some 0 else elim (find c s) [ none ↦ none | some i ↦ some (suc i) ]

-- `s.find(text) != npos`
unfoldable pub contains : Bytes → Bytes → Bool
unfolding starts_with
contains t [] = starts_with [] t
contains t (x ∷ s) = if starts_with (x ∷ s) t then true else contains t s

pub ends_with_append : (s t : Bytes) → ends_with (s ++ t) t ≡ true
unfolding ends_with
ends_with_append [] [] = refl
ends_with_append [] (c ∷ t) = rw (bytes_eq_refl (c ∷ t)) refl
ends_with_append (c ∷ s) t = ground (arith, ends_with_append s t)
