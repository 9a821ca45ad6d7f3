-- ===== src/Utility/Compare.antt =====
-- `namespace cmp` of lib/include/utility.hpp: the comparisons and the hash by which header names and
-- methods are looked up whatever their case. The iterator pair of the source is the pair of suffixes.
pub mod Order
use coroutine_http_server.Prelude.{
  ℕ, ◌+◌, ◌*◌, ◌%◌, ◌^◌, Bool, true, false, not, [], ◌∷◌, ltb, ◌==◌, if◌then◌else◌, Bytes,
}
use coroutine_http_server.Utility.Ctype.{tolower}

-- `CaseInsensitiveLess`
unfoldable pub less : Bytes → Bytes → Bool
less [] [] = false
less [] (_ ∷ _) = true
less (_ ∷ _) [] = false
less (x ∷ a) (y ∷ b) =
    let c1 = tolower x in let c2 = tolower y in if not (c1 == c2) then ltb c1 c2 else less a b

-- `CaseInsensitiveEqual`
unfoldable pub equal : Bytes → Bytes → Bool
equal [] [] = true
equal [] (_ ∷ _) = false
equal (_ ∷ _) [] = false
equal (x ∷ a) (y ∷ b) =
    let c1 = tolower x in let c2 = tolower y in if not (c1 == c2) then false else equal a b

-- The range of `std::size_t`.
abbrev pub size_mod : ℕ
size_mod = 2 ^ 64

-- The loop of `CaseInsensitiveHash`, from the hash so far.
unfoldable pub hash_from : ℕ → Bytes → ℕ
hash_from hash [] = hash
hash_from hash (ch ∷ s) = hash_from ((hash * 31 + tolower ch) % size_mod) s

-- `CaseInsensitiveHash`
unfoldable pub hash : Bytes → ℕ
unfolding hash_from
hash s = hash_from 0 s
