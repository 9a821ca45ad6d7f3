-- ===== src/Task/WhenAny.antt =====
-- `when_any` of lib/include/task.hpp. `WhenAnyAwaiter::await_suspend` resumes the tasks behind the first
-- one, one after another, and then goes on with the first. A task of the group awaits its awaitable,
-- which may complete at once; else the task is suspended, and resumed when the awaitable completes. A
-- task that ends gives back the handle of the coroutine that waits for the group, and so resumes it; if
-- that happens in the loop of `await_suspend`, then it destroys the tasks over which the loop still goes.
-- The results, which are a variant in the source, have one type here.
pub mod First
use coroutine_http_server.Prelude.{
  ℕ, ◌+◌, Bool, true, false, ◌||◌, Option, none, some, List, [], ◌∷◌, ◌==◌,
}
use coroutine_http_server.Prelude.Result.{Exception, Result, ok, throws}

-- What an awaitable does when its task awaits it first.
pub data Start {ℓ} (A : Type ℓ) : Type ℓ where
  suspends : Start A
  completes : Result A → Start A

-- `WhenAnyTaskGroup`, with `none` for the invalid index, and the variant `result`; and the tasks that are
-- suspended in their awaitables, the last one first.
pub record Group {ℓ} (A : Type ℓ) : Type ℓ where
  pub index : Option ℕ
  pub exception : Option Exception
  pub result : Option A
  pub awaiting : List ℕ

-- What the coroutine that waits for the group gets: it stays suspended, or has a result; or it is resumed
-- in the loop of `await_suspend`.
pub data Outcome {ℓ} (A : Type ℓ) : Type ℓ where
  stays : Outcome A
  resumed : Result (ℕ × A) → Outcome A
  dangles : Outcome A

abbrev pub is_some {ℓ} : {A : Type ℓ} → Option A → Bool
is_some none = false
is_some (some _) = true

abbrev pub among : List ℕ → ℕ → Bool
among [] i = false
among (j ∷ is) i = j == i || among is i

module _ {ℓ} {A : Type ℓ} where
  abbrev pub new_group : Group A
  new_group = record { index = none; exception = none; result = none; awaiting = [] }

  -- The test in front of the `try` block of `when_any_task`: a task has ended.
  abbrev pub is_decided : Group A → Bool
  is_decided group = is_some group.index || is_some group.exception

  -- The `try` block behind the `co_await`, and the handlers.
  unfoldable pub finish : ℕ → Result A → Group A → Group A
  finish i (ok a) group = record group { result = some a; index = some i }
  finish i (throws e) group = record group { exception = some e }

  -- `when_any_task` from its first resumption on, until it is suspended or ends; and whether it gives back
  -- the handle of the waiting coroutine.
  unfoldable pub when_any_task : ℕ → Start A → Group A → Group A × Bool
  unfolding finish
  when_any_task i suspends group = elim (is_decided group) [
    | true ↦ (group, false)
    | false ↦ (record group { awaiting = i ∷ group.awaiting }, false)
  ]
  when_any_task i (completes r) group = elim (is_decided group) [
    | true ↦ (group, false)
    | false ↦ (finish i r group, true)
  ]

  -- The loop of `await_suspend`, with the place of the next task; none if the waiting coroutine is resumed
  -- in it.
  unfoldable pub start_others : ℕ → List (Start A) → Group A → Option (Group A)
  unfolding when_any_task
  start_others i [] group = some group
  start_others i (s ∷ others) group = elim ((when_any_task i s group).1) [
    | true ↦ none
    | false ↦ start_others (i + 1) others (when_any_task i s group).0
  ]

  -- `WhenAnyAwaiter::await_resume`, and the return of `when_any`; the variant holds a value once an
  -- index is set, and the coroutine is resumed by a task that has ended.
  unfoldable pub await_resume : Group A → Outcome A
  await_resume group = elim (group.exception) [
    | some e ↦ resumed (throws e)
    | none ↦ elim (group.index) [
      | none ↦ stays
      | some i ↦ elim (group.result) [ none ↦ stays | some a ↦ resumed (ok (i, a)) ]
    ]
  ]

  -- Behind the start, awaitables complete in the given order; one that no task awaits resumes none.
  unfoldable pub run_group : List (ℕ × Result A) → Group A → Outcome A
  unfolding finish await_resume
  run_group [] group = stays
  run_group ((i, r) ∷ later) group = elim (among group.awaiting i) [
    | true ↦ await_resume (finish i r group)
    | false ↦ run_group later group
  ]

  -- `co_await WhenAnyAwaiter`: the start of the tasks, and what completes behind it.
  unfoldable pub start_group : Start A → List (Start A) → List (ℕ × Result A) → Group A → Outcome A
  unfolding start_others when_any_task run_group await_resume
  start_group first others later group = elim (start_others 1 others group) [
    | none ↦ dangles
    | some g ↦ elim ((when_any_task 0 first g).1) [
      | true ↦ await_resume (when_any_task 0 first g).0
      | false ↦ run_group later (when_any_task 0 first g).0
    ]
  ]

  unfoldable pub when_any : Start A → List (Start A) → List (ℕ × Result A) → Outcome A
  unfolding start_group
  when_any first others later = start_group first others later new_group
