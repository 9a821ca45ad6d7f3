-- ===== src/Task/WhenAll/Orders.antt =====
-- `when_all` of lib/include/task.hpp, over the orders in which its tasks may end.
use coroutine_http_server.Prelude.{
  ℕ, zero, suc, ◌-◌, ◌<◌, Bool, true, false, none, some, List, [], ◌∷◌, ◌++◌, ◌==◌, ◌≡◌, ◌⊎◌, inl,
  inr, refl, sym, ap, ◌∙◌, arith, if◌then◌else◌, length, get_or, length-replicate, Bool-cases,
  ==_iff,
}
use coroutine_http_server.Prelude.Result.{Exception, ok, throws}
use coroutine_http_server.Task.WhenAll.{
  End, value, failure, Group, set, new_group, when_all_task, await_resume, run_group, when_all,
}

-- The number is one of the list.
unfoldable pub occurs : ℕ → List ℕ → Bool
occurs i [] = false
occurs i (j ∷ js) = let later = occurs i js in if j == i then true else later

module _ {ℓ} {A : Type ℓ} where
  length-set : (xs : List A) (i : ℕ) (a : A) → length (set xs i a) ≡ length xs
  length-set [] i a = refl
  length-set (x ∷ xs) zero a = refl
  length-set (x ∷ xs) (suc i) a = ap suc (length-set xs i a)

  get_or-set_same : (xs : List A) (i : ℕ) (a d : A) → i < length xs → get_or (set xs i a) i d ≡ a
  get_or-set_same (x ∷ xs) zero a d h = refl
  get_or-set_same (x ∷ xs) (suc i) a d h = get_or-set_same xs i a d (omega arith)
  get_or-set_same [] i a d h = elim h [ ]

  get_or-set_other :
      (xs : List A) (i j : ℕ) (a d : A) → (i == j) ≡ false → get_or (set xs i a) j d ≡ get_or xs j d
  get_or-set_other [] i j a d h = refl
  get_or-set_other (x ∷ xs) zero zero a d h = cc
  get_or-set_other (x ∷ xs) zero (suc j) a d h = refl
  get_or-set_other (x ∷ xs) (suc i) zero a d h = refl
  get_or-set_other (x ∷ xs) (suc i) (suc j) a d h = get_or-set_other xs i j a d (ground arith)

  list_ext :
      (xs ys : List A) (d : A)
      → length xs ≡ length ys
      → ((i : ℕ) → i < length ys → get_or xs i d ≡ get_or ys i d)
      → xs ≡ ys
  list_ext [] [] d l h = refl
  list_ext (x ∷ xs) (y ∷ ys) d l h =
      let first = h 0 (omega arith) in
      let rest = list_ext xs ys d (omega arith) (λ i lt. h (suc i) (omega arith)) in cc
  list_ext [] (y ∷ ys) d l h = absurd (omega arith)
  list_ext (x ∷ xs) [] d l h = absurd (omega arith)

  -- The ends of tasks that all have values, in the given order of their places.
  abbrev pub ends_in : List A → A → List ℕ → List (End A)
  ends_in vs blank [] = []
  ends_in vs blank (i ∷ order) = value i (get_or vs i blank) ∷ ends_in vs blank order

  -- The places whose tasks have ended hold the values, and the others are still to come.
  abbrev Filled : List A → A → List ℕ → List A → Type ℓ
  Filled vs blank order result =
      (length result ≡ length vs)
      × ((j : ℕ)
          → j < length vs
          → (occurs j order ≡ true) ⊎ (get_or result j blank ≡ get_or vs j blank))

  Filled-set :
      (vs : List A) (blank : A) (i : ℕ) (order : List ℕ) (result : List A)
      → Filled vs blank (i ∷ order) result
      → Filled vs blank order (set result i (get_or vs i blank))
  unfolding occurs
  Filled-set vs blank i order result (l, h) =
      (length-set result i (get_or vs i blank) ∙ l, λ j lt. place j lt (Bool-cases (i == j)))
    where
      place :
          (j : ℕ)
          → j < length vs
          → ((i == j) ≡ true) ⊎ ((i == j) ≡ false)
          → (occurs j order ≡ true)
            ⊎ (get_or (set result i (get_or vs i blank)) j blank ≡ get_or vs j blank)
      place j lt (inl same) =
          let e : i ≡ j = (==_iff i j).0 same in
          inr (rw e (get_or-set_same result j (get_or vs j blank) blank (omega (arith, l))))
      place j lt (inr other) = elim (h j lt) [
        | inl later ↦ inl (rw other at later)
        | inr kept ↦ inr (get_or-set_other result i j (get_or vs i blank) blank other ∙ kept)
      ]

  Filled-nil : (vs : List A) (blank : A) (result : List A) → Filled vs blank [] result → result ≡ vs
  unfolding occurs
  Filled-nil vs blank result (l, h) =
      list_ext result vs blank l (λ j lt. elim (h j lt) [ inl never ↦ cc | inr kept ↦ kept ])

  run_group-values :
      (vs : List A) (blank : A) (i : ℕ) (order : List ℕ) (group : Group A)
      → group.exception ≡ none
      → group.count ≡ suc (length order)
      → Filled vs blank (i ∷ order) group.result
      → run_group group (ends_in vs blank (i ∷ order)) ≡ some (ok vs)
  unfolding run_group when_all_task await_resume
  run_group-values vs blank i [] group quiet count filled =
      let last : (group.count - 1 == 0) ≡ true = ground arith in
      let all = Filled-nil vs blank _ (Filled-set vs blank i [] group.result filled) in
      rw (last, run_group, quiet, all) refl
  run_group-values vs blank i (k ∷ order) group quiet count filled =
      let more : (group.count - 1 == 0) ≡ false = ground arith in
      let rest =
        run_group-values vs blank k order (when_all_task group (value i (get_or vs i blank))).0
          quiet (omega (arith, count)) (Filled-set vs blank i (k ∷ order) group.result filled) in
      rw (more, run_group) rest

  -- For tasks at least one, of which each ends once with a value, `when_all` resumes the waiting
  -- coroutine with the values in the order of the tasks, in whatever order they end.
  pub when_all-values :
      (vs : List A) (blank : A) (order : List ℕ)
      → 0 < length vs
      → length order ≡ length vs
      → ((j : ℕ) → j < length vs → occurs j order ≡ true)
      → when_all (length vs) blank (ends_in vs blank order) ≡ some (ok vs)
  unfolding when_all
  when_all-values vs blank [] some_task l h = absurd (omega arith)
  when_all-values vs blank (i ∷ order) some_task l h =
      run_group-values vs blank i order (new_group (length vs) blank) refl (sym l)
        (length-replicate (length vs) blank, λ j lt. inl (h j lt))

  run_group-failure :
      (order : List ℕ) (vs : List A) (blank : A) (e : Exception) (rest : List (End A))
      (group : Group A)
      → length order < group.count
      → run_group group (ends_in vs blank order ++ failure e ∷ rest) ≡ some (throws e)
  unfolding run_group when_all_task await_resume
  run_group-failure [] vs blank e rest group h = refl
  run_group-failure (i ∷ order) vs blank e rest group h =
      let more : (group.count - 1 == 0) ≡ false = ground arith in
      let later =
        run_group-failure order vs blank e rest
          (when_all_task group (value i (get_or vs i blank))).0 (omega arith) in
      rw (more, run_group) later

  -- If fewer tasks than the group has end with values and then one ends with an exception, `when_all`
  -- throws that exception at once, whatever the tasks do that are still running.
  pub when_all-failure :
      (n : ℕ) (vs : List A) (blank : A) (order : List ℕ) (e : Exception) (rest : List (End A))
      → length order < n
      → when_all n blank (ends_in vs blank order ++ failure e ∷ rest) ≡ some (throws e)
  unfolding when_all
  when_all-failure n vs blank order e rest h =
      run_group-failure order vs blank e rest (new_group n blank) h
