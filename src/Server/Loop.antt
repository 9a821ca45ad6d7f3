-- ===== src/Server/Loop.antt =====
-- `AsyncLoop::run` of example/server_epoll_coro.cpp. What it calls is a parameter: `run` of the timed
-- scheduler, with the time to wait; `have_registered_events`; `run` of the epoll scheduler; and
-- `sleep_for`.
use coroutine_http_server.Prelude.{
  ℕ, zero, suc, Bool, true, false, Option, none, some, ◌≡◌, ap, ◌∙◌, arith, Option-cases, inl, inr,
}
use coroutine_http_server.Prelude.Result.{Result}
use coroutine_http_server.Task.Promise.{Variant, result}

pub record Schedulers (S : Type 0) : Type 0 where
  pub timed_run : S → Option ℕ × S
  pub have_registered_events : S → Bool
  pub epoll_run : Option ℕ → S → S
  pub sleep_for : ℕ → S → S

module _ {S : Type 0} (sched : Schedulers S) where
  -- The rest of a round: where the loop goes on from, or none where it ends.
  unfoldable pub continue : Option ℕ → S → Option S
  continue timeout s = elim (sched.have_registered_events s) [
    | true ↦ some (sched.epoll_run timeout s)
    | false ↦ elim timeout [ some d ↦ some (sched.sleep_for d s) | none ↦ none ]
  ]

  -- The loop, on fuel; none where that is used up.
  unfoldable pub loop : ℕ → S → Option S
  unfolding continue
  loop zero s = none
  loop (suc fuel) s = elim (continue (sched.timed_run s).0 (sched.timed_run s).1) [
    | some s' ↦ loop fuel s'
    | none ↦ some (sched.timed_run s).1
  ]

  continue-eq-none :
      (timeout : Option ℕ) (s : S)
      → continue timeout s ≡ none
      → (timeout ≡ none) × (sched.have_registered_events s ≡ false)
  unfolding continue
  continue-eq-none timeout s e = ground arith

  -- Where the loop ends, no coroutine sleeps and no promise is registered.
  pub loop-ends :
      (fuel : ℕ) (s s' : S)
      → loop fuel s ≡ some s'
      → (before : S) × (sched.timed_run before ≡ (none, s'))
        × (sched.have_registered_events s' ≡ false)
  unfolding loop
  loop-ends zero s s' e = cc
  loop-ends (suc fuel) s s' e =
      let timeout = (sched.timed_run s).0 in
      let after = (sched.timed_run s).1 in
      elim (Option-cases (continue timeout after)) [
        | inl over ↦
            let (none_left, unregistered) = continue-eq-none timeout after over in
            let same : after ≡ s' = ground arith in
            (s, ap (λ t. (t, after)) none_left ∙ ap (λ x. (none, x)) same, rw (← same) unregistered)
        | inr (next, on) ↦ loop-ends fuel next s' (ground arith)
      ]

  module _ {ℓ} {A : Type ℓ} (promise_of : S → Variant A) where
    -- `run_task` of lib/include/task.hpp, from where the task was resumed, on the fuel of the loop.
    unfoldable pub run_task : ℕ → S → Option (Result A)
    unfolding loop result
    run_task fuel s = elim (loop fuel s) [ none ↦ none | some s' ↦ some (result (promise_of s')) ]

    -- What `run_task` gives is what the promise of the task holds at the end of the loop, where no promise
    -- is registered.
    pub run_task-result :
        (fuel : ℕ) (s : S) (r : Result A)
        → run_task fuel s ≡ some r
        → (s' : S) × (loop fuel s ≡ some s')
          × (r ≡ result (promise_of s'))
          × (sched.have_registered_events s' ≡ false)
    unfolding run_task
    run_task-result fuel s r e = elim (Option-cases (loop fuel s)) [
      | inl out ↦ let e' = rw (run_task, out) at e in cc
      | inr (s', ran) ↦
          let (before, _, unregistered) = loop-ends fuel s s' ran in
          let e' = rw (run_task, ran) at e in (s', ran, cc, unregistered)
    ]
