-- ===== src/Prelude/Searching.antt =====
-- What `find` finds.
use Prim.Native.Nat.{ℕ, suc, zero, ◌<◌}
use mathlib.Core.Path.{◌≡◌, refl, ap}
use mathlib.Core.Bool.{false}
use mathlib.Core.Option.{none, some}
use mathlib.Core.List.{[], ◌∷◌, ◌++◌}
use native.Mathlib.Omega.{arith}
use coroutine_http_server.Prelude.Tests.{◌==◌}
use coroutine_http_server.Prelude.Lists.{length, take, drop}
use coroutine_http_server.Prelude.Strings.{Bytes, find}

-- The byte stands nowhere in the string.
abbrev pub Lacks : ℕ → Bytes → Type 0
Lacks c [] = Unit
Lacks c (x ∷ s) = ((x == c) ≡ false) × Lacks c s

pub Lacks-append : (c : ℕ) (s t : Bytes) → Lacks c s → Lacks c t → Lacks c (s ++ t)
Lacks-append c [] t h k = k
Lacks-append c (x ∷ s) t h k = (h.0, Lacks-append c s t h.1 k)

pub find-Lacks : (c : ℕ) (s : Bytes) → Lacks c s → find c s ≡ none
unfolding find
find-Lacks c [] h = refl
find-Lacks c (x ∷ s) h = ground (arith, find-Lacks c s)

pub Lacks-find : (c : ℕ) (s : Bytes) → find c s ≡ none → Lacks c s
unfolding find
Lacks-find c [] h = tt
Lacks-find c (x ∷ s) h = ground (arith, Lacks-find c s)

-- The first place of a byte that the part before it lacks.
pub find_first : (c : ℕ) (s t : Bytes) → Lacks c s → find c (s ++ c ∷ t) ≡ some (length s)
unfolding find
find_first c [] t h = ground arith
find_first c (x ∷ s) t h = ground (arith, find_first c s t)

-- What is found is the byte, and the part before it lacks the byte.
pub find-eq-some :
    (c : ℕ) (s : Bytes) (i : ℕ)
    → find c s ≡ some i
    → Lacks c (take i s) × (i < length s) × (drop i s ≡ c ∷ drop (suc i) s)
unfolding find
find-eq-some c [] i h = cc
find-eq-some c (x ∷ s) zero h = (tt, omega arith, ground arith)
find-eq-some c (x ∷ s) (suc i) h = ground (arith, find-eq-some c s i)

pub take-find : (s t : Bytes) → take (length s) (s ++ t) ≡ s
take-find [] t = refl
take-find (x ∷ s) t = ap (◌∷◌ x) (take-find s t)

pub drop-find : (s t : Bytes) (c : ℕ) → drop (suc (length s)) (s ++ c ∷ t) ≡ t
drop-find [] t c = refl
drop-find (x ∷ s) t c = drop-find s t c
