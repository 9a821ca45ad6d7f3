-- ===== src/Task/Timed.antt =====
-- `TimedScheduler`, `SleepAwaiter` and the order of `TimedPromise` in lib/include/task.hpp. What a
-- resumed coroutine does to the scheduler is a parameter: the sleeps that it reaches and the sleeping
-- coroutines that it destroys, by all that was resumed so far. A clock reading is a number of ticks,
-- and the readings are a list.
pub mod Order
pub mod Runs
pub mod Finish
pub mod Entry
use coroutine_http_server.Prelude.{
  ℕ, ◌-◌, Bool, true, false, not, ◌||◌, List, [], ◌∷◌, ◌==◌, ltb, leb, if◌then◌else◌,
}

-- A sleeping coroutine: `expire_` of its promise, and the address of its frame.
pub record Timer : Type 0 where
  pub expire : ℕ
  pub address : ℕ

-- `operator<` of the handles
unfoldable pub before : Timer → Timer → Bool
before l r = if not (l.expire == r.expire) then ltb l.expire r.expire else ltb l.address r.address

-- `timed_coros_.insert(h)`: the set is the list in its order.
unfoldable pub insert : Timer → List Timer → List Timer
unfolding before
insert t [] = t ∷ []
insert t (u ∷ us) =
    if before t u then t ∷ u ∷ us else if before u t then u ∷ insert t us else u ∷ us

-- `tree_->erase(h)`
unfoldable pub erase : Timer → List Timer → List Timer
unfolding before
erase t [] = []
erase t (u ∷ us) = if before t u || before u t then u ∷ erase t us else us

-- What a resumed coroutine does: it reaches a sleep, at a reading of the clock, or destroys a sleeping
-- coroutine.
pub data Effect : Type 0 where
  sleeps : ℕ → Timer → Effect
  destroys : Timer → Effect

-- What was resumed: a ready coroutine, or a sleeping one, at a reading of the clock, with those that
-- slept on.
pub data Resumption : Type 0 where
  entered : ℕ → Resumption
  woken : Timer → ℕ → List Timer → Resumption

pub record Scheduler : Type 0 where
  pub ready_coros : List ℕ
  pub timed_coros : List Timer
  pub resumed : List Resumption

abbrev pub new_scheduler : Scheduler
new_scheduler = record { ready_coros = []; timed_coros = []; resumed = [] }

-- `SleepAwaiter`: a sleep that is over goes on at once, another one is a task of the scheduler.
unfoldable pub sleep_until : ℕ → Timer → Scheduler → Scheduler
sleep_until now t s =
    if leb t.expire now then s else record s { timed_coros = insert t s.timed_coros }

-- `~TimedPromise` of a sleeping coroutine
abbrev pub destroy : Timer → Scheduler → Scheduler
destroy t s = record s { timed_coros = erase t s.timed_coros }

unfoldable pub effect : Effect → Scheduler → Scheduler
unfolding sleep_until
effect (sleeps now t) s = sleep_until now t s
effect (destroys t) s = destroy t s

unfoldable pub effects : List Effect → Scheduler → Scheduler
unfolding effect
effects [] s = s
effects (e ∷ es) s = effects es (effect e s)

-- How a call of `run` ends: with the time to wait, with `std::nullopt`, or not within the readings.
pub data Pause : Type 0 where
  wait : ℕ → Pause
  over : Pause
  unfinished : Pause

module _ (program : List Resumption → List Effect) where
  -- `coro.resume()`
  unfoldable pub resume : Resumption → Scheduler → Scheduler
  unfolding effects
  resume r s = effects (program (r ∷ s.resumed)) (record s { resumed = r ∷ s.resumed })

  -- The loop over the ready coroutines.
  unfoldable pub enter_all : List ℕ → Scheduler → Scheduler
  unfolding resume
  enter_all [] s = record s { ready_coros = [] }
  enter_all (h ∷ hs) s = enter_all hs (resume (entered h) s)

  -- A sleeping coroutine whose time has come ends, and with its end leaves the set.
  unfoldable pub wake : Timer → List Timer → ℕ → Scheduler → Scheduler
  unfolding resume
  wake t others now s =
      resume (woken t now others) (record s { timed_coros = erase t s.timed_coros })

  -- The loop over the sleeping coroutines; each round reads the clock.
  unfoldable pub timed_loop : List ℕ → Scheduler → Pause × Scheduler
  unfolding wake
  timed_loop [] s = elim (s.timed_coros) [ [] ↦ (over, s) | t ∷ others ↦ (unfinished, s) ]
  timed_loop (now ∷ nows) s = elim (s.timed_coros) [
    | [] ↦ (over, s)
    | t ∷ others ↦ elim (leb t.expire now) [
      | true ↦ timed_loop nows (wake t others now s)
      | false ↦ (wait (t.expire - now), s)
    ]
  ]

  -- `run()`: nothing in the program makes a coroutine ready, so there is one round of the outer loop.
  unfoldable pub run : List ℕ → Scheduler → Pause × Scheduler
  unfolding enter_all timed_loop
  run nows s = timed_loop nows (enter_all s.ready_coros s)
