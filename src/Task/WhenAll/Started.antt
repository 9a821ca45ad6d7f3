-- ===== src/Task/WhenAll/Started.antt =====
-- The start of the tasks of `when_all` in lib/include/task.hpp: `WhenAllAwaiter::await_suspend` resumes the
-- tasks behind the first one, one after another, and then goes on with the first. A task may end in its
-- start. One that gives back the handle of the waiting coroutine resumes it inside the loop, where it
-- destroys the tasks over which the loop still goes.
use coroutine_http_server.Prelude.{
  suc, ◌-◌, ◌<◌, true, false, Option, none, some, List, [], ◌∷◌, ◌++◌, ◌==◌, ◌≡◌, refl,
  length-append, arith, length,
}
use coroutine_http_server.Prelude.Result.{Exception, Result}
use coroutine_http_server.Task.WhenAll.{
  End, value, failure, Group, new_group, when_all_task, run_group,
}

-- What a task does when it is resumed first.
pub data Start {ℓ} (A : Type ℓ) : Type ℓ where
  suspends : Start A
  ends : End A → Start A

module _ {ℓ} {A : Type ℓ} where
  -- The loop over the tasks behind the first; none if the waiting coroutine is resumed in it.
  unfoldable pub start_others : Group A → List (Start A) → Option (Group A)
  unfolding when_all_task
  start_others group [] = some group
  start_others group (suspends ∷ others) = start_others group others
  start_others group (ends e ∷ others) = elim ((when_all_task group e).1) [
    | true ↦ none
    | false ↦ start_others (when_all_task group e).0 others
  ]

  abbrev pub ends_of : Start A → List (End A)
  ends_of suspends = []
  ends_of (ends e) = e ∷ []

  -- `when_all` with the starts of its tasks and the ends of those that were suspended: none if the tasks
  -- are destroyed in the loop that starts them.
  unfoldable pub start_group :
      Group A → Start A → List (Start A) → List (End A) → Option (Option (Result (List A)))
  unfolding start_others run_group
  start_group group first others later = elim (start_others group others) [
    | none ↦ none
    | some g ↦ some (run_group g (ends_of first ++ later))
  ]

  abbrev pub ends_of_all : List (Start A) → List (End A)
  ends_of_all [] = []
  ends_of_all (s ∷ others) = ends_of s ++ ends_of_all others

  -- The task does not end with an exception in its start.
  abbrev pub Unfailing : Start A → Type 0
  Unfailing suspends = Unit
  Unfailing (ends (value i a)) = Unit
  Unfailing (ends (failure e)) = ⊥

  abbrev pub AllUnfailing : List (Start A) → Type 0
  AllUnfailing [] = Unit
  AllUnfailing (s ∷ others) = Unfailing s × AllUnfailing others

  start_others-run_group :
      (group : Group A) (others : List (Start A)) (later : List (End A))
      → length others < group.count
      → AllUnfailing others
      → (g : Group A) × (start_others group others ≡ some g)
        × (run_group group (ends_of_all others ++ later) ≡ run_group g later)
  unfolding start_others run_group when_all_task
  start_others-run_group group [] later h u = (group, refl, refl)
  start_others-run_group group (suspends ∷ others) later h u =
      start_others-run_group group others later (omega arith) u.1
  start_others-run_group group (ends (value i a) ∷ others) later h u =
      let more : (group.count - 1 == 0) ≡ false = ground arith in
      let (g, e, same) =
        start_others-run_group (when_all_task group (value i a)).0 others later (omega arith) u.1 in
      (g, rw (more, start_others) e, rw (more, run_group) same)
  start_others-run_group group (ends (failure x) ∷ others) later h u = elim u.0 [ ]

  -- If none of the tasks behind the first ends with an exception in its start, then the loop comes to its
  -- end, and `when_all` does what it does with tasks that end only behind the start: first those that
  -- ended in it, in the order of their starts, then the first task if it ended in its own, then the others.
  pub start_group-run_group :
      (blank : A) (first : Start A) (others : List (Start A)) (later : List (End A))
      → AllUnfailing others
      → start_group (new_group (suc (length others)) blank) first others later
        ≡ some (
            run_group
              (new_group (suc (length others)) blank)
              (ends_of_all others ++ (ends_of first ++ later)))
  unfolding start_group
  start_group-run_group blank first others later u =
      let (g, e, same) =
        start_others-run_group (new_group (suc (length others)) blank) others
          (ends_of first ++ later) (omega arith) u in
      rw (e, same, start_group) refl

  start_others-none :
      (group : Group A) (before rest : List (Start A)) (x : Exception)
      → length before < group.count
      → AllUnfailing before
      → start_others group (before ++ ends (failure x) ∷ rest) ≡ none
  unfolding start_others when_all_task
  start_others-none group [] rest x h u = refl
  start_others-none group (suspends ∷ before) rest x h u =
      start_others-none group before rest x (omega arith) u.1
  start_others-none group (ends (value i a) ∷ before) rest x h u =
      let more : (group.count - 1 == 0) ≡ false = ground arith in
      let e =
        start_others-none (when_all_task group (value i a)).0 before rest x (omega arith) u.1 in
      rw (more, start_others) e
  start_others-none group (ends (failure y) ∷ before) rest x h u = elim u.0 [ ]

  -- If a task behind the first ends with an exception in its start, then the waiting coroutine is resumed
  -- inside the loop that starts the tasks, whatever the tasks before it do but fail, and those behind it.
  pub start_group_dangles :
      (blank : A) (first : Start A) (before rest : List (Start A)) (x : Exception)
      (later : List (End A))
      → AllUnfailing before
      → start_group
          (new_group (suc (suc (length (before ++ rest)))) blank)
          first
          (before ++ ends (failure x) ∷ rest)
          later
        ≡ none
  unfolding start_group
  start_group_dangles blank first before rest x later u =
      rw
        (
          start_others-none (new_group (suc (suc (length (before ++ rest)))) blank) before rest x
              (omega (arith, length-append {ℓ} before rest)) u,
          start_group,
        )
        refl
