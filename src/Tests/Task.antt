-- ===== src/Tests/Task.antt =====
-- A group of two tasks of `when_all`, which end in the other order.
use coroutine_http_server.Prelude.{
  ℕ, zero, suc, ◌<◌, true, none, some, [], ◌∷◌, ◌++◌, ◌≡◌, refl, arith,
}
use coroutine_http_server.Prelude.Result.{ok, throws, runtime_error}
use coroutine_http_server.Task.WhenAll.{failure, value, when_all, new_group, run_group}
use coroutine_http_server.Task.WhenAll.Started.{
  suspends, ends, start_group, start_group-run_group, start_group_dangles,
}
use coroutine_http_server.Task.WhenAll.Orders.{occurs, ends_in, when_all-values, when_all-failure}

both_occur : (j : ℕ) → j < 2 → occurs j (1 ∷ 0 ∷ []) ≡ true
unfolding occurs
both_occur zero h = refl
both_occur (suc zero) h = refl
both_occur (suc (suc j)) h = absurd (omega arith)

when_all-values_example :
    when_all {A = ℕ} 2 0 (ends_in (7 ∷ 8 ∷ []) 0 (1 ∷ 0 ∷ [])) ≡ some (ok (7 ∷ 8 ∷ []))
when_all-values_example = when_all-values (7 ∷ 8 ∷ []) 0 (1 ∷ 0 ∷ []) (omega arith) refl both_occur

when_all-failure_example :
    when_all {A = ℕ} 2 0
      (ends_in (7 ∷ 8 ∷ []) 0 (1 ∷ []) ++ failure (runtime_error "no") ∷ value 0 7 ∷ [])
    ≡ some (throws (runtime_error "no"))
when_all-failure_example =
    when_all-failure 2 (7 ∷ 8 ∷ []) 0 (1 ∷ []) (runtime_error "no") (value 0 7 ∷ []) (omega arith)

-- The second task ends in its start, the third is suspended.
start_group-run_group_example :
    start_group {A = ℕ}
      (new_group 3 0)
      suspends
      (ends (value 1 20) ∷ suspends ∷ [])
      (value 2 30 ∷ value 0 10 ∷ [])
    ≡ some (run_group (new_group 3 0) (value 1 20 ∷ value 2 30 ∷ value 0 10 ∷ []))
start_group-run_group_example =
    start_group-run_group 0 suspends (ends (value 1 20) ∷ suspends ∷ [])
      (value 2 30 ∷ value 0 10 ∷ []) (tt, (tt, tt))

-- The second task fails in its start.
start_group_dangles_example :
    start_group {A = ℕ}
      (new_group 3 0)
      suspends
      (suspends ∷ ends (failure (runtime_error "second")) ∷ [])
      []
    ≡ none
start_group_dangles_example =
    start_group_dangles 0 suspends (suspends ∷ []) [] (runtime_error "second") [] (tt, tt)
