-- ===== src/Prelude/Owned.antt =====
-- Who owns what: resources are numbers, each owner holds some of them, and the counts of all owners
-- are added up.
use Prim.Native.Nat.{ℕ, zero, suc, ◌+◌, ◌≤◌}
use mathlib.Core.Path.{◌≡◌, refl}
use mathlib.Core.Bool.{Bool, true, false}
use mathlib.Core.Option.{Option, none, some}
use mathlib.Core.List.{List, [], ◌∷◌, ◌++◌}
use native.Mathlib.Omega.{arith}
use coroutine_http_server.Prelude.Tests.{◌==◌, if◌then◌else◌}

-- How often the number is in the list.
abbrev pub count : ℕ → List ℕ → ℕ
count a [] = 0
count a (x ∷ xs) = (if x == a then 1 else 0) + count a xs

abbrev pub holds : Option ℕ → ℕ → ℕ
holds none a = 0
holds (some x) a = if x == a then 1 else 0

abbrev pub put : Option ℕ → List ℕ → List ℕ
put none xs = xs
put (some x) xs = x ∷ xs

pub count-put : (o : Option ℕ) (xs : List ℕ) (a : ℕ) → count a (put o xs) ≡ holds o a + count a xs
count-put none xs a = omega arith
count-put (some x) xs a = refl

-- The list without the first occurrence of the number.
unfoldable pub without : ℕ → List ℕ → List ℕ
without a [] = []
without a (x ∷ xs) = if x == a then xs else x ∷ without a xs

unfoldable pub occurs : ℕ → List ℕ → Bool
occurs a [] = false
occurs a (x ∷ xs) = if x == a then true else occurs a xs

pub occurs_of_count : (a : ℕ) (xs : List ℕ) → 1 ≤ count a xs → occurs a xs ≡ true
unfolding occurs
occurs_of_count a [] h = absurd (omega arith)
occurs_of_count a (x ∷ xs) h = ground (arith, occurs_of_count a xs)

occurs_of_zero : (a : ℕ) (xs : List ℕ) → count a xs ≡ 0 → occurs a xs ≡ false
unfolding occurs
occurs_of_zero a [] h = refl
occurs_of_zero a (x ∷ xs) h = ground (arith, occurs_of_zero a xs)

pub count-without :
    (a b : ℕ) (xs : List ℕ)
    → 1 ≤ count a xs
    → count b (without a xs) + (if a == b then 1 else 0) ≡ count b xs
unfolding without
count-without a b [] h = absurd (omega arith)
count-without a b (x ∷ xs) h = ground (arith, count-without a b xs)

-- A list that has no element has none of any number.
pub nil_of_count : (xs : List ℕ) → ((a : ℕ) → count a xs ≡ 0) → xs ≡ []
nil_of_count [] h = refl
nil_of_count (x ∷ xs) h = absurd (ground (arith, h x))

module _ {ℓ} {A : Type ℓ} where
  abbrev pub get_elem? : List A → ℕ → Option A
  get_elem? [] i = none
  get_elem? (x ∷ xs) zero = some x
  get_elem? (x ∷ xs) (suc i) = get_elem? xs i

  -- A write out of bounds changes nothing.
  abbrev pub set : List A → ℕ → A → List A
  set [] i a = []
  set (x ∷ xs) zero a = a ∷ xs
  set (x ∷ xs) (suc i) a = x ∷ set xs i a

  abbrev pub remove : List A → ℕ → List A
  remove [] i = []
  remove (x ∷ xs) zero = xs
  remove (x ∷ xs) (suc i) = x ∷ remove xs i

module _ {ℓ} {A : Type ℓ} (owns : A → ℕ → ℕ) where
  abbrev pub total : List A → ℕ → ℕ
  total [] a = 0
  total (x ∷ xs) a = owns x a + total xs a

  pub total-set :
      (xs : List A) (i : ℕ) (x y : A) (a : ℕ)
      → get_elem? xs i ≡ some x
      → total (set xs i y) a + owns x a ≡ total xs a + owns y a
  total-set [] i x y a h = absurd (ground arith)
  total-set (z ∷ xs) zero x y a h = let e : owns z a ≡ owns x a = ground (arith) in omega (arith, e)
  total-set (z ∷ xs) (suc i) x y a h = omega (arith, total-set xs i x y a h)

  pub total-remove :
      (xs : List A) (i : ℕ) (x : A) (a : ℕ)
      → get_elem? xs i ≡ some x
      → total (remove xs i) a + owns x a ≡ total xs a
  total-remove [] i x a h = absurd (ground arith)
  total-remove (z ∷ xs) zero x a h =
      let e : owns z a ≡ owns x a = ground (arith) in omega (arith, e)
  total-remove (z ∷ xs) (suc i) x a h = omega (arith, total-remove xs i x a h)

  pub total-append : (xs ys : List A) (a : ℕ) → total (xs ++ ys) a ≡ total xs a + total ys a
  total-append [] ys a = omega arith
  total-append (x ∷ xs) ys a = omega (arith, total-append xs ys a)

-- What is held is given up: none if it is not there.
unfoldable pub free : ℕ → List ℕ → Option (List ℕ)
unfolding occurs without
free a xs = if occurs a xs then some (without a xs) else none

unfoldable pub free_some : Option ℕ → List ℕ → Option (List ℕ)
unfolding free
free_some none xs = some xs
free_some (some a) xs = free a xs

pub free_some_counts :
    (o : Option ℕ) (xs : List ℕ)
    → ((a : ℕ) → holds o a ≤ count a xs)
    → (ys : List ℕ) × (free_some o xs ≡ some ys) × ((a : ℕ) → count a ys + holds o a ≡ count a xs)
unfolding free_some free
free_some_counts none xs h = (xs, refl, λ a. omega arith)
free_some_counts (some fd) xs h =
    let here : 1 ≤ count fd xs = ground (arith, h fd) in
    (
      without fd xs,
      rw (occurs_of_count fd xs here, free_some, free) refl,
      λ a. count-without fd a xs here,
    )

-- What is put in the place of one element stands at the place of another that it equals.
pub get_elem?-set {ℓ} :
    {A : Type ℓ} (xs : List A) (i j : ℕ) (x z : A)
    → get_elem? xs i ≡ some x
    → get_elem? xs j ≡ some z
    → get_elem? (set xs i z) j ≡ some z
get_elem?-set [] i j x z h k = k
get_elem?-set (y ∷ xs) zero zero x z h k = refl
get_elem?-set (y ∷ xs) zero (suc j) x z h k = k
get_elem?-set (y ∷ xs) (suc i) zero x z h k = k
get_elem?-set (y ∷ xs) (suc i) (suc j) x z h k = get_elem?-set xs i j x z h k

pub occurs_head : (a : ℕ) (xs : List ℕ) → occurs a (a ∷ xs) ≡ true
unfolding occurs
occurs_head a xs = ground arith

pub free_head : (a : ℕ) (xs : List ℕ) → free a (a ∷ xs) ≡ some xs
unfolding free occurs without
free_head a xs = ground arith

-- What is held once can be given up once.
pub free_twice : (a : ℕ) (xs : List ℕ) → count a xs ≡ 1 → free a (without a xs) ≡ none
unfolding free
free_twice a xs h =
    let gone : count a (without a xs) ≡ 0 = ground (arith, count-without a a xs) in
    rw (free, occurs_of_zero a (without a xs) gone) refl

pub free_held : (a : ℕ) (xs : List ℕ) → 1 ≤ count a xs → free a xs ≡ some (without a xs)
unfolding free
free_held a xs h = rw (free, occurs_of_count a xs h) refl
