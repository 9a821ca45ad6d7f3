-- ===== src/Task/Chain.antt =====
-- The transfers of control between coroutines in lib/include/task.hpp: `TaskAwaiter` jumps to the
-- coroutine that is awaited and leaves the handle of the other in its promise, `PreviousAwaiter` jumps
-- back at its end. Promises are a function from the addresses of frames to their `prev_`; the no-op
-- coroutine is `none`.
pub mod Stack
use coroutine_http_server.Prelude.{ℕ, Option, none, some, List, [], ◌∷◌, ◌==◌, if◌then◌else◌}

pub record Control : Type 0 where
  pub prev : ℕ → Option ℕ
  pub current : Option ℕ

abbrev pub set_prev : ℕ → ℕ → (ℕ → Option ℕ) → ℕ → Option ℕ
set_prev coro h prev x = if x == coro then some h else prev x

-- What the coroutine that runs does next: it awaits a task, or ends.
pub data Transfer : Type 0 where
  awaits : ℕ → Transfer
  ends : Transfer

-- `TaskAwaiter::await_suspend`
unfoldable pub await_suspend : ℕ → ℕ → Control → Control
await_suspend coro h s = record { prev = set_prev coro h s.prev; current = some coro }

-- `PreviousAwaiter::await_suspend`, which `final_suspend` gives
unfoldable pub final_suspend : ℕ → Control → Control
final_suspend h s = record s { current = s.prev h }

-- One transfer; no coroutine runs in the no-op coroutine.
unfoldable pub transfer : Transfer → Control → Control
unfolding await_suspend final_suspend
transfer (awaits coro) s = elim (s.current) [ none ↦ s | some h ↦ await_suspend coro h s ]
transfer ends s = elim (s.current) [ none ↦ s | some h ↦ final_suspend h s ]

unfoldable pub transfers : List Transfer → Control → Control
unfolding transfer
transfers [] s = s
transfers (t ∷ ts) s = transfers ts (transfer t s)
