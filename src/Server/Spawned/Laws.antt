-- ===== src/Server/Spawned/Laws.antt =====
-- The vector of tasks after `spawn_task`, of example/server_epoll_coro.cpp.
use mathlib.Core.Bool.{Bool-discrete}
use mathlib.Core.List.{Perm, filter}
use mathlib.Core.List.Perm
use coroutine_http_server.Prelude.{
  ℕ, zero, suc, ◌≤◌, Bool, true, false, some, List, [], ◌∷◌, ◌++◌, length, ◌≡◌, refl, arith,
  append-nil, append_assoc, Bool-cases, inl, inr,
}
use coroutine_http_server.Server.Spawned.{put_second, move_last, swap_pop, sweep, spawn_task}

module _ {ℓ} {T : Type ℓ} where
  put_second-Perm : (u : T) (ts : List T) → Perm (put_second u ts) (u ∷ ts)
  put_second-Perm u [] = Perm.refl (u ∷ [])
  put_second-Perm u (v ∷ ts) = Perm.swap u v ts

  move_last-Perm : (u : T) (ts : List T) → Perm (move_last u ts) (u ∷ ts)
  unfolding move_last
  move_last-Perm u [] = Perm.refl (u ∷ [])
  move_last-Perm u (v ∷ ts) =
      Perm.trans (put_second-Perm u (move_last v ts)) (Perm.cons u (move_last-Perm v ts))

  swap_pop-Perm : (ts : List T) → Perm (swap_pop ts) ts
  unfolding swap_pop
  swap_pop-Perm [] = Perm.nil
  swap_pop-Perm (u ∷ ts) = move_last-Perm u ts

  length-put_second : (u : T) (ts : List T) → length (put_second u ts) ≡ suc (length ts)
  length-put_second u [] = refl
  length-put_second u (v ∷ ts) = refl

  length-move_last : (u : T) (ts : List T) → length (move_last u ts) ≡ suc (length ts)
  unfolding move_last
  length-move_last u [] = refl
  length-move_last u (v ∷ ts) =
      omega (arith, length-put_second u (move_last v ts), length-move_last v ts)

  length-swap_pop : (ts : List T) → length (swap_pop ts) ≡ length ts
  unfolding swap_pop
  length-swap_pop [] = refl
  length-swap_pop (u ∷ ts) = length-move_last u ts

  module _ (done : T → Bool) where
    -- The tasks that are not done, in their order.
    abbrev pub running : List T → List T
    running = filter (λ t. Bool-discrete (done t) false)

    running_done : (t : T) (ts : List T) → done t ≡ true → running (t ∷ ts) ≡ running ts
    running_done t ts e = rw e refl

    running_cons : (t : T) (ts : List T) → done t ≡ false → running (t ∷ ts) ≡ t ∷ running ts
    running_cons t ts e = rw e refl

    sweep-running :
        (fuel : ℕ) (kept rest : List T)
        → length rest ≤ fuel
        → (out : List T) × (sweep done fuel kept rest ≡ some out) × Perm out (kept ++ running rest)
    unfolding sweep
    sweep-running zero kept [] h = (kept, refl, rw (append-nil kept) (Perm.refl kept))
    sweep-running (suc fuel) kept [] h = (kept, refl, rw (append-nil kept) (Perm.refl kept))
    sweep-running zero kept (t ∷ rest) h = elim h [ ]
    sweep-running (suc fuel) kept (t ∷ rest) h = elim (Bool-cases (done t)) [
      | inl e ↦
          let (out, run, same) =
            sweep-running fuel kept (swap_pop rest) (omega (arith, length-swap_pop rest)) in
          (
            out,
            rw (sweep, e) run,
            rw (running_done t rest e)
                (Perm.trans same (Perm.append_left kept (Perm.filter _ (swap_pop-Perm rest)))),
          )
      | inr e ↦
          let (out, run, same) = sweep-running fuel (kept ++ t ∷ []) rest (omega arith) in
          (
            out,
            rw (sweep, e) run,
            rw (running_cons t rest e, ← (append_assoc kept (t ∷ []) (running rest))) same,
          )
    ]

    -- `spawn_task` comes to its end; the vector then holds the tasks that were not done, in some order,
    -- and the new task behind them.
    pub spawn_task-running :
        (t : T) (tasks : List T)
        → (tasks' : List T) × (spawn_task done t tasks ≡ some (tasks' ++ t ∷ []))
          × Perm tasks' (running tasks)
    unfolding spawn_task
    spawn_task-running t tasks =
        let (out, run, same) = sweep-running (length tasks) [] tasks (omega arith) in
        (out, rw (spawn_task, run) refl, same)
