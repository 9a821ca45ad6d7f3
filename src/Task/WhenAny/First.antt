-- ===== src/Task/WhenAny/First.antt =====
-- What decides a group of `when_any` of lib/include/task.hpp.
use coroutine_http_server.Prelude.{
  ℕ, zero, suc, ◌+◌, Bool, true, false, ◌||◌, ◌&&◌, ltb, none, some, List, [], ◌∷◌, ◌≡◌, refl, ap,
  ◌∙◌, arith, leb, length, Bool-cases, inl, inr, if◌then◌else◌,
}
use coroutine_http_server.Prelude.Result.{Result, ok, throws}
use coroutine_http_server.Task.WhenAny.{
  Start, suspends, completes, Group, Outcome, stays, resumed, dangles, is_decided, among, finish,
  when_any_task, start_others, await_resume, run_group, start_group,
}

-- The result of the task in a place.
abbrev placed {ℓ} : {A : Type ℓ} → ℕ → Result A → Result (ℕ × A)
placed i (ok a) = ok (i, a)
placed i (throws e) = throws e

abbrev some_completes {ℓ} : {A : Type ℓ} → List (Start A) → Bool
some_completes [] = false
some_completes (suspends ∷ others) = some_completes others
some_completes (completes r ∷ others) = true

-- The first completion of the awaitable of a task whose place is not above `n`.
abbrev first_within {ℓ} : {A : Type ℓ} → ℕ → List (ℕ × Result A) → Outcome A
first_within n [] = stays
first_within n ((i, r) ∷ later) = if leb i n then resumed (placed i r) else first_within n later

-- What `when_any` gives, from what the awaitables do.
abbrev pub first_result {ℓ} :
    {A : Type ℓ} → Start A → List (Start A) → List (ℕ × Result A) → Outcome A
first_result (completes r) others later =
    if some_completes others then dangles else resumed (placed 0 r)
first_result suspends others later =
    if some_completes others then dangles else first_within (length others) later

-- What a group of which no task is suspended yet gives: in one that is decided no task begins.
abbrev pub group_result {ℓ} :
    {A : Type ℓ} → Group A → Start A → List (Start A) → List (ℕ × Result A) → Outcome A
group_result group first others later =
    if is_decided group then stays else first_result first others later

-- The places from `n` down to 1, in front of others.
abbrev down_from : ℕ → ℕ → List ℕ → List ℕ
down_from i zero is = is
down_from i (suc n) is = down_from (i + 1) n (i ∷ is)

module _ {ℓ} {A : Type ℓ} where
  decided-when_any_task :
      (i : ℕ) (s : Start A) (group : Group A)
      → is_decided group ≡ true
      → when_any_task i s group ≡ (group, false)
  unfolding when_any_task
  decided-when_any_task i suspends group d = rw (when_any_task, d) refl
  decided-when_any_task i (completes r) group d = rw (when_any_task, d) refl

  suspended-when_any_task :
      (i : ℕ) (group : Group A)
      → is_decided group ≡ false
      → when_any_task i suspends group ≡ (record group { awaiting = i ∷ group.awaiting }, false)
  unfolding when_any_task
  suspended-when_any_task i group d = rw (when_any_task, d) refl

  completed-when_any_task :
      (i : ℕ) (r : Result A) (group : Group A)
      → is_decided group ≡ false
      → when_any_task i (completes r) group ≡ (finish i r group, true)
  unfolding when_any_task
  completed-when_any_task i r group d = rw (when_any_task, d) refl

  -- A task that does not resume the waiting coroutine, and the loop behind it.
  start_others-on :
      (i : ℕ) (s : Start A) (others : List (Start A)) (group g : Group A)
      → when_any_task i s group ≡ (g, false)
      → start_others i (s ∷ others) group ≡ start_others (i + 1) others g
  unfolding start_others
  start_others-on i s others group g e =
      ap
        (λ (p : Group A × Bool). elim (p.1) [
          | true ↦ none
          | false ↦ start_others (i + 1) others p.0
        ])
        e

  -- The first task behind the loop, and what follows.
  start_group-on :
      (first : Start A) (others : List (Start A)) (later : List (ℕ × Result A))
      (group g g' : Group A) (b : Bool)
      → start_others 1 others group ≡ some g
      → when_any_task 0 first g ≡ (g', b)
      → start_group first others later group
        ≡ elim b [ true ↦ await_resume g' | false ↦ run_group later g' ]
  unfolding start_group
  start_group-on first others later group g g' b started e =
      rw (start_group, started)
        (ap
          (λ (p : Group A × Bool). elim (p.1) [
            | true ↦ await_resume p.0
            | false ↦ run_group later p.0
          ])
          e)

  decided-start_others :
      (others : List (Start A)) (i : ℕ) (group : Group A)
      → is_decided group ≡ true
      → start_others i others group ≡ some group
  unfolding start_others
  decided-start_others [] i group d = refl
  decided-start_others (s ∷ others) i group d =
      start_others-on i s others group group (decided-when_any_task i s group d)
      ∙ decided-start_others others (i + 1) group d

  run_group-nobody :
      (later : List (ℕ × Result A)) (group : Group A)
      → group.awaiting ≡ []
      → run_group later group ≡ stays
  unfolding run_group
  run_group-nobody [] group e = refl
  run_group-nobody ((i, r) ∷ later) group e = rw (e, run_group) (run_group-nobody later group e)

  undecided-exception : (group : Group A) → is_decided group ≡ false → group.exception ≡ none
  undecided-exception group d = ground arith

  await_resume-finish :
      (i : ℕ) (r : Result A) (group : Group A)
      → is_decided group ≡ false
      → await_resume (finish i r group) ≡ resumed (placed i r)
  unfolding await_resume finish
  await_resume-finish i (ok a) group d = rw (undecided-exception group d) refl
  await_resume-finish i (throws e) group d = refl

  start_others-suspends :
      (others : List (Start A)) (i : ℕ) (group : Group A)
      → is_decided group ≡ false
      → some_completes others ≡ false
      → start_others i others group
        ≡ some (record group { awaiting = down_from i (length others) group.awaiting })
  unfolding start_others when_any_task
  start_others-suspends [] i group d e = refl
  start_others-suspends (suspends ∷ others) i group d e =
      start_others-on i suspends others group _ (suspended-when_any_task i group d)
      ∙ start_others-suspends others (i + 1) (record group { awaiting = i ∷ group.awaiting }) d e
  start_others-suspends (completes r ∷ others) i group d e = cc

  start_others-dangles :
      (others : List (Start A)) (i : ℕ) (group : Group A)
      → is_decided group ≡ false
      → some_completes others ≡ true
      → start_others i others group ≡ none
  unfolding start_others when_any_task
  start_others-dangles [] i group d e = cc
  start_others-dangles (suspends ∷ others) i group d e =
      start_others-on i suspends others group _ (suspended-when_any_task i group d)
      ∙ start_others-dangles others (i + 1) (record group { awaiting = i ∷ group.awaiting }) d e
  start_others-dangles (completes r ∷ others) i group d e =
      rw (start_others, completed-when_any_task i r group d) refl

  run_group-first :
      (later : List (ℕ × Result A)) (group : Group A) (n : ℕ)
      → is_decided group ≡ false
      → ((i : ℕ) → among group.awaiting i ≡ leb i n)
      → run_group later group ≡ first_within n later
  unfolding run_group
  run_group-first [] group n d h = refl
  run_group-first ((i, r) ∷ later) group n d h = elim (Bool-cases (leb i n)) [
    | inl one ↦ rw (run_group, h i, one) (await_resume-finish i r group d)
    | inr other ↦ rw (run_group, h i, other) (run_group-first later group n d h)
  ]

among-down_from :
    (n i j : ℕ) (is : List ℕ)
    → among (down_from i n is) j ≡ ((leb i j && ltb j (i + n)) || among is j)
among-down_from zero i j is = ground arith
among-down_from (suc n) i j is = among-down_from n (i + 1) j (i ∷ is) ∙ ground arith

within : (n i : ℕ) → among (0 ∷ down_from 1 n []) i ≡ leb i n
within n i = rw (among-down_from n 1 i []) (ground arith)

module _ {ℓ} {A : Type ℓ} where
  -- Behind the loop, with the first task.
  first_task :
      (first : Start A) (others : List (Start A)) (later : List (ℕ × Result A)) (group : Group A)
      → is_decided group ≡ false
      → group.awaiting ≡ []
      → some_completes others ≡ false
      → start_group first others later group ≡ first_result first others later
  first_task suspends others later group d e none_early =
      start_group-on suspends others later group _ _ false
        (start_others-suspends others 1 group d none_early) (suspended-when_any_task 0 _ d)
      ∙ (run_group-first later _ (length others) d (rw e (within (length others)))
          ∙ rw none_early refl)
  first_task (completes r) others later group d e none_early =
      start_group-on (completes r) others later group _ _ true
        (start_others-suspends others 1 group d none_early) (completed-when_any_task 0 r _ d)
      ∙ (await_resume-finish 0 r _ d ∙ rw none_early refl)

  undecided-first :
      (first : Start A) (others : List (Start A)) (later : List (ℕ × Result A)) (group : Group A)
      → is_decided group ≡ false
      → group.awaiting ≡ []
      → start_group first others later group ≡ first_result first others later
  unfolding start_group
  undecided-first first others later group d e = elim (Bool-cases (some_completes others)) [
    | inr none_early ↦ first_task first others later group d e none_early
    | inl early ↦
        rw (start_group, start_others-dangles others 1 group d early) (dangling first early)
  ]
    where
      dangling :
          (s : Start A) → some_completes others ≡ true → dangles ≡ first_result s others later
      dangling suspends early = rw early refl
      dangling (completes r) early = rw early refl

  -- From a group of which no task is suspended: if a task has ended in it, then none begins, and the waiting
  -- coroutine stays as it is. Else, if the awaitable of a task behind the first completes at once, then the
  -- waiting coroutine is resumed in the loop that starts the tasks. If none does, it gets what the first
  -- task's awaitable gives, if that completes at once, and otherwise what the first awaitable of the group
  -- to complete later gives, a value with its place or an exception; it stays suspended if none completes.
  pub when_any-first :
      (group : Group A) (first : Start A) (others : List (Start A)) (later : List (ℕ × Result A))
      → group.awaiting ≡ []
      → start_group first others later group ≡ group_result group first others later
  when_any-first group first others later e = elim (Bool-cases (is_decided group)) [
    | inr d ↦ rw d (undecided-first first others later group d e)
    | inl d ↦
        start_group-on first others later group group group false
          (decided-start_others others 1 group d) (decided-when_any_task 0 first group d)
        ∙ (run_group-nobody later group e ∙ rw d refl)
  ]
