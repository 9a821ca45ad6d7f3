-- ===== src/Server/Spawned.antt =====
-- `spawn_task` of example/server_epoll_coro.cpp: the tasks whose coroutines are done leave the vector,
-- and the new task comes to its end. What tells that a task is done is a parameter.
pub mod Laws
use coroutine_http_server.Prelude.{
  ℕ, zero, suc, Bool, true, false, Option, none, some, List, [], ◌∷◌, ◌++◌, length,
}

-- An element behind the first of a list.
abbrev pub put_second {ℓ} : {T : Type ℓ} → T → List T → List T
put_second u [] = u ∷ []
put_second u (v ∷ ts) = v ∷ u ∷ ts

-- The list of an element and others, with the last brought to the front.
unfoldable pub move_last {ℓ} : {T : Type ℓ} → T → List T → List T
move_last u [] = u ∷ []
move_last u (v ∷ ts) = put_second u (move_last v ts)

-- `std::swap(v[i], v.back())` and `v.pop_back()`, on what stands behind `v[i]`: the new `v[i]` and what
-- stands behind it.
unfoldable pub swap_pop {ℓ} : {T : Type ℓ} → List T → List T
unfolding move_last
swap_pop [] = []
swap_pop (u ∷ ts) = move_last u ts

module _ {ℓ} {T : Type ℓ} (done : T → Bool) where
  -- The loop, with the tasks in front of `i`, and those from `i`; the fuel counts its rounds.
  unfoldable pub sweep : ℕ → List T → List T → Option (List T)
  unfolding swap_pop
  sweep fuel kept [] = some kept
  sweep zero kept (t ∷ rest) = none
  sweep (suc fuel) kept (t ∷ rest) = elim (done t) [
    | true ↦ sweep fuel kept (swap_pop rest)
    | false ↦ sweep fuel (kept ++ t ∷ []) rest
  ]

  unfoldable pub spawn_task : T → List T → Option (List T)
  unfolding sweep
  spawn_task t tasks = elim (sweep (length tasks) [] tasks) [
    | none ↦ none
    | some tasks' ↦ some (tasks' ++ t ∷ [])
  ]
