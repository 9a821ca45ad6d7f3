-- ===== src/Utility/Compare/Order.antt =====
-- What the containers of the standard library ask of the comparisons and the hash of `namespace cmp` in
-- lib/include/utility.hpp.
use coroutine_http_server.Prelude.{ℕ, Bool, true, false, [], ◌∷◌, ◌≡◌, ◌↔◌, refl, arith, Bytes}
use coroutine_http_server.Utility.Ctype.{tolower}
use coroutine_http_server.Utility.Compare.{less, equal, hash, hash_from}

-- The name in lower case, by which both comparisons go.
abbrev pub lowered : Bytes → Bytes
lowered [] = []
lowered (x ∷ a) = tolower x ∷ lowered a

-- `equal` says that the lower-case names are the same.
pub equal_iff : (a b : Bytes) → (equal a b ≡ true) ↔ (lowered a ≡ lowered b)
unfolding equal
equal_iff (x ∷ a) (y ∷ b) = ground (arith, equal_iff a b)
equal_iff _ _ = ground arith

-- `less` is irreflexive up to case.
pub less_irrefl : (a b : Bytes) → equal a b ≡ true → less a b ≡ false
unfolding less equal
less_irrefl (x ∷ a) (y ∷ b) h = ground (arith, less_irrefl a b)
less_irrefl _ _ h = ground arith

pub less_trans : (a b c : Bytes) → less a b ≡ true → less b c ≡ true → less a c ≡ true
unfolding less
less_trans (x ∷ a) (y ∷ b) (z ∷ c) h k = ground (arith, less_trans a b c)
less_trans _ _ _ h k = ground arith

pub less_asymm : (a b : Bytes) → less a b ≡ true → less b a ≡ false
unfolding less
less_asymm (x ∷ a) (y ∷ b) h = ground (arith, less_asymm a b)
less_asymm _ _ h = ground arith

-- Names that neither precede one another are `equal`.
pub equal_of_not_less : (a b : Bytes) → less a b ≡ false → less b a ≡ false → equal a b ≡ true
unfolding less equal
equal_of_not_less (x ∷ a) (y ∷ b) h k = ground (arith, equal_of_not_less a b)
equal_of_not_less _ _ h k = ground arith

-- `less` does not tell apart names that are `equal`.
pub less_congr : (a a' b b' : Bytes) → equal a a' ≡ true → equal b b' ≡ true → less a b ≡ less a' b'
unfolding less equal
less_congr (x ∷ a) (x' ∷ a') (y ∷ b) (y' ∷ b') h k = ground (arith, less_congr a a' b b')
less_congr _ _ _ _ h k = ground arith

-- The strict weak order that `std::map` and the hash that `std::unordered_map` rely on, in one.
pub record IsKeyOrder (lt eq : Bytes → Bytes → Bool) (h : Bytes → ℕ) : Type 0 where
  pub asymm : (a b : Bytes) → lt a b ≡ true → lt b a ≡ false
  pub trans : (a b c : Bytes) → lt a b ≡ true → lt b c ≡ true → lt a c ≡ true
  pub equiv : (a b : Bytes) → (eq a b ≡ true) ↔ ((lt a b ≡ false) × (lt b a ≡ false))
  pub equiv_trans : (a b c : Bytes) → eq a b ≡ true → eq b c ≡ true → eq a c ≡ true
  pub hash_eq : (a b : Bytes) → eq a b ≡ true → h a ≡ h b

pub equal_symm : (a b : Bytes) → equal a b ≡ true → equal b a ≡ true
equal_symm a b h = ground (arith, equal_iff a b, equal_iff b a)

pub equal_refl : (a : Bytes) → equal a a ≡ true
equal_refl a = (equal_iff a a).1 refl

pub equal_trans : (a b c : Bytes) → equal a b ≡ true → equal b c ≡ true → equal a c ≡ true
equal_trans a b c h k = ground (arith, equal_iff a b, equal_iff b c, equal_iff a c)

hash_from-equal : (a b : Bytes) (n : ℕ) → equal a b ≡ true → hash_from n a ≡ hash_from n b
unfolding hash_from equal
hash_from-equal (x ∷ a) (y ∷ b) n h =
    let same : tolower x ≡ tolower y = ground arith in
    rw same (hash_from-equal a b _ (ground arith))
hash_from-equal [] [] n h = refl
hash_from-equal _ _ n h = cc

-- The case-insensitive comparisons are a strict weak order with its equivalence, and names that
-- are equal up to case have the same hash.
pub compare-IsKeyOrder : IsKeyOrder less equal hash
unfolding hash
compare-IsKeyOrder = record {
  asymm = less_asymm;
  trans = less_trans;
  equiv = λ a b. (
    λ h. (less_irrefl a b h, less_irrefl b a (equal_symm a b h)),
    λ (h, k). equal_of_not_less a b h k,
  );
  equiv_trans = equal_trans;
  hash_eq = λ a b. hash_from-equal a b 0;
}
