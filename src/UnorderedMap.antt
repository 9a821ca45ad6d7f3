-- ===== src/UnorderedMap.antt =====
-- `std::unordered_map` as the program uses it: `find`, and assignment through `operator[]`. The map is
-- an association list with a key once; its order stands for nothing.
pub mod Laws
use coroutine_http_server.Prelude.{
  Bool, true, Option, none, some, List, [], ◌∷◌, ◌≡◌, ◌↔◌, if◌then◌else◌, Bytes, bytes_eq,
  bytes_eq_iff,
}

-- The equality by which a map finds its keys.
pub record KeyEq {ℓ} (K : Type ℓ) : Type ℓ where
  pub beq : K → K → Bool
  pub beq_iff : (a b : K) → (beq a b ≡ true) ↔ (a ≡ b)

-- `cmp::CaseSensitiveEqual`, and `std::equal_to<std::string>`
instance abbrev pub bytes_key : KeyEq Bytes
bytes_key = record { beq = bytes_eq; beq_iff = bytes_eq_iff }

module _ {ℓ κ} {K : Type ℓ} {V : Type κ} ⦃e : KeyEq K⦄ where
  -- `m.find(k)`, none for `m.end()`
  unfoldable pub lookup : K → List (K × V) → Option V
  lookup k [] = none
  lookup k ((j, v) ∷ m) = if e.beq j k then some v else lookup k m

  -- `m[k] = v`
  unfoldable pub assign : K → V → List (K × V) → List (K × V)
  assign k v [] = (k, v) ∷ []
  assign k v ((j, w) ∷ m) = if e.beq j k then (j, v) ∷ m else (j, w) ∷ assign k v m
