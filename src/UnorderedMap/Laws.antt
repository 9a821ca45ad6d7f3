-- ===== src/UnorderedMap/Laws.antt =====
-- What a map holds after an assignment.
use coroutine_http_server.Prelude.{
  true, false, some, List, [], ◌∷◌, ◌++◌, ◌≡◌, refl, if◌then◌else◌, arith, All,
}
use coroutine_http_server.UnorderedMap.{KeyEq, lookup, assign}

pub beq_refl {ℓ} : {K : Type ℓ} ⦃e : KeyEq K⦄ (k : K) → e.beq k k ≡ true
beq_refl ⦃e⦄ k = (e.beq_iff k k).1 refl

module _ {ℓ κ} {K : Type ℓ} {V : Type κ} ⦃e : KeyEq K⦄ where
  -- An assignment is seen at its key, and nowhere else.
  pub lookup-assign :
      (k j : K) (v : V) (m : List (K × V))
      → lookup j (assign k v m) ≡ (if e.beq k j then some v else lookup j m)
  unfolding lookup assign
  lookup-assign k j v [] = refl
  lookup-assign k j v ((i, w) ∷ m) =
      ground (arith, e.beq_iff k j, e.beq_iff i k, e.beq_iff i j, lookup-assign k j v m)

  -- A key that no entry has is put at the end.
  pub assign_new :
      (k : K) (v : V) (m : List (K × V))
      → All (λ p. e.beq p.0 k ≡ false) m
      → assign k v m ≡ m ++ (k, v) ∷ []
  unfolding assign
  assign_new k v [] h = refl
  assign_new k v ((j, w) ∷ m) h = ground (arith, assign_new k v m)
