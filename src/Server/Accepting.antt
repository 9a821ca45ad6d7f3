-- ===== src/Server/Accepting.antt =====
-- The entry point of example/server_epoll_coro.cpp: it accepts connections one after another, and spawns
-- a task for each. A task is what `handle_request` makes of the socket, which is a parameter, as is which
-- tasks are done when a client comes.
use mathlib.Core.Bool.{Bool-discrete}
use mathlib.Core.List.{Perm, filter, map, filter-append}
use mathlib.Core.List.Perm
use coroutine_http_server.Prelude.{
  ℕ, suc, Bool, true, false, Option, none, some, List, [], ◌∷◌, ◌++◌, ◌≡◌, refl, ap, Bool-cases,
  inl, inr, append_assoc, append-nil,
}
use coroutine_http_server.Prelude.Result.{Exception}
use coroutine_http_server.Io.Outcome.{done, throws, waits, exhausted}
use coroutine_http_server.Io.Socket.{Returned, value, socket_accept}
use coroutine_http_server.Server.Spawned.{spawn_task}
use coroutine_http_server.Server.Spawned.Laws.{running, spawn_task-running}

-- The entry point waits for the next client, or an exception ends it; with the spawned tasks.
pub data Entry {ℓ} (T : Type ℓ) : Type ℓ where
  accepting : List T → Entry T
  threw : Exception → List T → Entry T

module _ {ℓ} {T : Type ℓ} (is_done : ℕ → T → Bool) (handle_request : ℕ → T) where
  -- The loop after `n` clients, with the masks by which it wakes and what `accept4` gives; none if
  -- `spawn_task` does not come to its end.
  unfoldable pub accept_clients : ℕ → List (ℕ × Returned) → List T → Option (Entry T)
  unfolding socket_accept spawn_task
  accept_clients n [] tasks = some (accepting tasks)
  accept_clients n ((mask, accepted) ∷ clients) tasks = elim (socket_accept (mask ∷ []) accepted) [
    | throws e ↦ some (threw e tasks)
    | waits ↦ some (accepting tasks)
    | exhausted ↦ some (accepting tasks)
    | done (fd, later) ↦ elim (spawn_task (is_done n) (handle_request fd) tasks) [
      | none ↦ none
      | some tasks' ↦ accept_clients (suc n) clients tasks'
    ]
  ]

  -- The clients that are accepted, by the mask and the descriptor.
  abbrev pub accepted_clients : List (ℕ × ℕ) → List (ℕ × Returned)
  accepted_clients [] = []
  accepted_clients ((mask, fd) ∷ clients) = (mask, value fd) ∷ accepted_clients clients

  module _ (live : T → Bool)
      (unfinished : (n : ℕ) (t : T) → live t ≡ true → is_done n t ≡ false) where
    -- The tasks that never are done, in their order.
    abbrev pub lasting : List T → List T
    lasting = filter (λ t. Bool-discrete (live t) true)

    lasting-running : (n : ℕ) (ts : List T) → lasting (running (is_done n) ts) ≡ lasting ts
    lasting-running n [] = refl
    lasting-running n (t ∷ ts) =
        let ih = lasting-running n ts in
        elim (Bool-cases (is_done n t)) [
          | inl e ↦ elim (Bool-cases (live t)) [
            | inl e' ↦ let wrong = unfinished n t e' in cc
            | inr e' ↦ rw (e, e') ih
          ]
          | inr e ↦ elim (Bool-cases (live t)) [
            | inl e' ↦ rw (e, e') (ap (◌∷◌ t) ih)
            | inr e' ↦ rw (e, e') ih
          ]
        ]

    lasting-append : (ts us : List T) → lasting (ts ++ us) ≡ lasting ts ++ lasting us
    lasting-append ts us = filter-append _ ts us

    kept-Perm :
        (n : ℕ) (kept tasks us : List T) (t : T)
        → Perm kept (running (is_done n) tasks)
        → Perm (lasting (kept ++ t ∷ []) ++ lasting us) (lasting tasks ++ lasting (t ∷ us))
    kept-Perm n kept tasks us t same =
        let here : Perm (lasting kept) (lasting tasks) =
          rw (← lasting-running n tasks) (Perm.filter _ same) in
        rw (lasting-append kept (t ∷ []), lasting-append (t ∷ []) us, append_assoc)
          (Perm.append_right _ here)

    -- After any number of clients that are accepted, the entry point waits for the next one, and the tasks
    -- that are not done whenever a client comes are in the vector as often as among those at first and those
    -- of the clients: none is dropped and none is there twice.
    pub accept_clients-lasting :
        (n : ℕ) (clients : List (ℕ × ℕ)) (tasks : List T)
        → (tasks' : List T) × (accept_clients n (accepted_clients clients) tasks
            ≡ some (accepting tasks'))
          × Perm
              (lasting tasks')
              (lasting tasks ++ lasting (map (λ (c : ℕ × ℕ). handle_request c.1) clients))
    unfolding accept_clients
    accept_clients-lasting n [] tasks =
        (tasks, refl, rw (append-nil (lasting tasks)) (Perm.refl (lasting tasks)))
    accept_clients-lasting n ((mask, fd) ∷ clients) tasks =
        let t = handle_request fd in
        let (kept, e, same) = spawn_task-running (is_done n) t tasks in
        let (tasks', e', same') = accept_clients-lasting (suc n) clients (kept ++ t ∷ []) in
        (tasks', rw (e, accept_clients) e', Perm.trans same' (kept-Perm n kept tasks _ t same))
