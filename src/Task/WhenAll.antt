-- ===== src/Task/WhenAll.antt =====
-- `when_all` of lib/include/task.hpp. The tasks of the group are started and then end one after
-- another, each with a value or an exception; the coroutine that waits for the group is resumed by the
-- first end that returns its handle. The results, which are a tuple in the source, have one type here.
pub mod Orders
pub mod Started
use coroutine_http_server.Prelude.{
  ℕ, zero, suc, ◌-◌, Bool, true, false, Option, none, some, List, [], ◌∷◌, ◌==◌, if◌then◌else◌,
  length, replicate,
}
use coroutine_http_server.Prelude.Result.{Exception, Result, ok, throws}

-- How a task of the group ends: with its place in the group and its value, or with an exception.
pub data End {ℓ} (A : Type ℓ) : Type ℓ where
  value : ℕ → A → End A
  failure : Exception → End A

-- `WhenAllTaskGroup`, and the tuple `result`.
pub record Group {ℓ} (A : Type ℓ) : Type ℓ where
  pub count : ℕ
  pub exception : Option Exception
  pub result : List A

module _ {ℓ} {A : Type ℓ} where
  -- `std::get<I>(result) = a`
  abbrev pub set : List A → ℕ → A → List A
  set [] i a = []
  set (x ∷ xs) zero a = a ∷ xs
  set (x ∷ xs) (suc i) a = x ∷ set xs i a

  -- The group that `when_all` builds for `n` tasks, with the values that the tuple is filled with.
  abbrev pub new_group : ℕ → A → Group A
  new_group n blank = record { count = n; exception = none; result = replicate n blank }

  -- The end of `when_all_task`: the group, and whether the handle returned is that of the waiting
  -- coroutine.
  unfoldable pub when_all_task : Group A → End A → Group A × Bool
  when_all_task group (failure e) = (record group { exception = some e }, true)
  when_all_task group (value i a) = (
    record group { result = set group.result i a; count = group.count - 1 },
    group.count - 1 == 0,
  )

  -- `WhenAllAwaiter::await_resume`, and the return of `when_all`
  unfoldable pub await_resume : Group A → Result (List A)
  await_resume group = elim (group.exception) [ some e ↦ throws e | none ↦ ok group.result ]

  -- The tasks end in the given order; `none` if the waiting coroutine stays suspended.
  unfoldable pub run_group : Group A → List (End A) → Option (Result (List A))
  unfolding when_all_task await_resume
  run_group group [] = none
  run_group group (end ∷ ends) = elim ((when_all_task group end).1) [
    | true ↦ some (await_resume (when_all_task group end).0)
    | false ↦ run_group (when_all_task group end).0 ends
  ]

  unfoldable pub when_all : ℕ → A → List (End A) → Option (Result (List A))
  unfolding run_group
  when_all n blank ends = run_group (new_group n blank) ends
