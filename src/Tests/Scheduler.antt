-- ===== src/Tests/Scheduler.antt =====
-- The schedulers of lib/include/task.hpp and lib/include/epoll.hpp, `when_any`, and transfers of
-- control.
use coroutine_http_server.Prelude.{
  ℕ, Bool, false, ◌==◌, ◌*◌, ◌+◌, ◌≤◌, ◌<◌, none, some, List, [], ◌∷◌, ◌≡◌, refl, arith,
  if◌then◌else◌,
}
use coroutine_http_server.Prelude.Result.{Result, ok, throws, runtime_error}
use coroutine_http_server.Prelude.Decimal.{pos, negsuc}
use coroutine_http_server.Task.Timed
use coroutine_http_server.Task.Timed.{
  Timer, before, Effect, Resumption, new_scheduler, unfinished, wait, sleeps, enter_all, wake,
  effects, resume, timed_loop, insert, erase, sleep_until,
}
use coroutine_http_server.Task.Timed.Runs.{Says, run-Ends, IsOrderly}
use coroutine_http_server.Task.WhenAny.{
  suspends, completes, resumed, dangles, stays, new_group, finish, when_any_task, start_others,
  await_resume, run_group, start_group, when_any,
}
use coroutine_http_server.Task.WhenAny.First.{group_result, when_any-first}
use coroutine_http_server.Task.Chain.{Control, awaits, ends, transfers}
use coroutine_http_server.Task.Chain.Stack.{IsStack, transfers-IsStack}
use coroutine_http_server.Task.Promise.{yields, returns, fails, monostate, result}
use coroutine_http_server.Task.Promise
use coroutine_http_server.Io.Epoll.{Kernel, Waiter, Scheduler, timeout_of, ms, acts, destroy}
use coroutine_http_server.Io.Epoll
use coroutine_http_server.Io.Epoll.Timeout.{timeout_of-bounds}
use coroutine_http_server.Io.Epoll.Registered.{
  IsKernel, IsRegistered, among, without, acts-IsRegistered,
}
use coroutine_http_server.Io.Epoll.Turn
use coroutine_http_server.Io.Epoll.Turn.{ready, returned, dangling, run}
use coroutine_http_server.Io.Epoll.Turn.Resumes.{handled, run-resumes}
use coroutine_http_server.Io.Epoll.Turn.Rounds
use coroutine_http_server.Io.Epoll.Turn.Rounds.{EndedSays, run_task_says}
use coroutine_http_server.Task.Timed.Entry.{run_entry, SaysEnded, run_entry_says}

abbrev quiet : List Resumption → List Effect
quiet _ = []

-- Two coroutines sleep, until 5 and until 9.
abbrev sleeping : Timed.Scheduler
sleeping = record new_scheduler {
  timed_coros = record { expire = 5; address = 1 } ∷ record { expire = 9; address = 2 } ∷ [];
}

run-Ends_example :
    IsOrderly (Timed.run quiet (6 ∷ 7 ∷ []) sleeping).1
    × Says
        (6 ∷ 7 ∷ [])
        (Timed.run quiet (6 ∷ 7 ∷ []) sleeping).0
        (Timed.run quiet (6 ∷ 7 ∷ []) sleeping).1
unfolding before
run-Ends_example =
    run-Ends quiet (6 ∷ 7 ∷ []) sleeping (record { sorted = ((refl, tt), (tt, tt)); due = tt })

-- After the first has been resumed at 6, the second is to wait for at 7.
run_waits : (Timed.run quiet (6 ∷ 7 ∷ []) sleeping).0 ≡ wait 2
unfolding Timed.run enter_all timed_loop wake resume effects erase before
run_waits = refl

-- What no task awaits completes first, and then the task behind the first one.
abbrev race : List (ℕ × Result ℕ)
race = (5, ok 3) ∷ (1, ok 7) ∷ (0, throws (runtime_error "late")) ∷ []

when_any-first_example :
    start_group suspends (suspends ∷ []) race new_group
    ≡ group_result new_group suspends (suspends ∷ []) race
when_any-first_example = when_any-first new_group suspends (suspends ∷ []) race refl

when_any_lem : when_any suspends (suspends ∷ []) race ≡ resumed (ok (1, 7))
unfolding when_any start_group start_others when_any_task run_group finish await_resume
when_any_lem = refl

-- The second task ends in its start.
when_any_dangles : when_any suspends (completes (ok 7) ∷ suspends ∷ []) race ≡ dangles
unfolding when_any start_group start_others when_any_task run_group finish await_resume
when_any_dangles = refl

-- The task 3 of the group has ended before.
when_any_decided :
    start_group (completes (ok 4)) (suspends ∷ []) race (record new_group { index = some 3 })
    ≡ stays
unfolding start_group start_others when_any_task run_group finish await_resume
when_any_decided = refl

abbrev started_by_1 : Control
started_by_1 = record { prev = λ _. none; current = some 1 }

transfers-IsStack_example : IsStack (transfers (awaits 2 ∷ ends ∷ []) started_by_1) (1 ∷ [])
transfers-IsStack_example =
    transfers-IsStack (awaits 2 ∷ ends ∷ []) started_by_1 (1 ∷ []) ((refl, tt), (tt, tt))
      (refl, refl)

-- The last that a coroutine leaves in its promise counts.
promise_lem : result (Promise.acts {A = ℕ} (yields 1 ∷ returns 2 ∷ []) monostate) ≡ ok 2
unfolding Promise.acts Promise.act result
promise_lem = refl

promise_unset : result {A = ℕ} monostate ≡ throws (runtime_error "The value is not set: ")
unfolding result
promise_unset = refl

-- A kernel that keeps the list of the descriptors that are watched.
abbrev kernel : Kernel (List ℕ)
kernel = record {
  ctl_add = λ fd events k. if among fd k then none else some (fd ∷ k);
  ctl_del = λ fd k. if among fd k then some (without fd k) else none;
}

kernel-IsKernel : IsKernel kernel (λ k. k)
kernel-IsKernel = record {
  add = λ fd events k k' e. ground arith;
  del = λ fd k e. (without fd k, ground arith, refl);
}

abbrev empty : Scheduler (List ℕ)
empty = record { epoll = []; registered_cnt = pos 0; waiters = [] }

empty-IsRegistered : IsRegistered kernel (λ k. k) kernel-IsKernel empty
empty-IsRegistered = record { watches = refl; distinct = tt; count = refl }

abbrev waiter : ℕ → ℕ → Waiter
waiter address fd = record { address = address; fd = fd; events = 1 }

-- The second promise waits for the same descriptor, and may not be added.
abbrev session : List Epoll.Act
session =
    Epoll.awaits (waiter 1 4) ∷ Epoll.awaits (waiter 2 4) ∷ Epoll.destroys 2 ∷ Epoll.destroys 1 ∷ []

acts-IsRegistered_example :
    (s' : Scheduler (List ℕ)) × (acts kernel session empty ≡ ok s')
    × IsRegistered kernel (λ k. k) kernel-IsKernel s'
acts-IsRegistered_example =
    acts-IsRegistered kernel (λ k. k) kernel-IsKernel session empty empty-IsRegistered

abbrev waiting : Scheduler (List ℕ)
waiting = record {
  epoll = 4 ∷ 5 ∷ [];
  registered_cnt = pos 2;
  waiters = waiter 1 4 ∷ waiter 2 5 ∷ [];
}

abbrev both : List Turn.Event
both = record { address = 2; mask = 1 } ∷ record { address = 1; mask = 1 } ∷ []

-- Each coroutine that is resumed destroys its promise.
abbrev ends_own : List Turn.Event → List Epoll.Act
ends_own [] = []
ends_own (e ∷ es) = Epoll.destroys e.address ∷ []

run-resumes_example :
    (s' : Scheduler (List ℕ)) × (run kernel ends_own (ready both) waiting
      ≡ returned (handled both []) s')
    × IsRegistered kernel (λ k. k) kernel-IsKernel s'
unfolding Epoll.find_waiter
run-resumes_example =
    run-resumes kernel (λ k. k) kernel-IsKernel ends_own both waiting
      (record { watches = refl; distinct = (refl, (refl, tt)); count = refl })
      ((waiter 2 5, refl), ((waiter 1 4, refl), tt)) (((refl, tt), tt), (tt, tt))

-- The first coroutine that is resumed destroys the promise of the other event.
abbrev ends_other : List Turn.Event → List Epoll.Act
ends_other _ = Epoll.destroys 1 ∷ []

run_dangling : run kernel ends_other (ready both) waiting ≡ dangling
unfolding run Turn.dispatch acts Epoll.act destroy Epoll.remove_listener Epoll.find_waiter
    Epoll.drop_waiter
run_dangling = refl

timeout_of-bounds_example :
    (1500000 < 2147483648 * ms
      → (t : ℕ) × (timeout_of (some 1500000) ≡ pos t)
        × (t * ms ≤ 1500000)
        × (1500000 < (t + 1) * ms))
    × (2147483648 * ms ≤ 1500000
        → 1500000 < 4294967296 * ms
        → (n : ℕ) × (timeout_of (some 1500000) ≡ negsuc n))
timeout_of-bounds_example = timeout_of-bounds 1500000

-- 2^31 milliseconds, nearly 25 days, become a wait without a limit.
timeout_lem : timeout_of (some (2147483648 * ms)) ≡ negsuc 2147483647
unfolding timeout_of
timeout_lem = refl

-- The entry point is done when the second coroutine has woken.
abbrev all_woken : List Resumption → Bool
all_woken (Resumption.woken t now others ∷ rs) = t.address == 2
all_woken rs = false

abbrev clock_readings : List (List ℕ)
clock_readings = (6 ∷ 7 ∷ []) ∷ (9 ∷ []) ∷ []

run_entry_says_example :
    SaysEnded quiet all_woken sleeping (run_entry quiet all_woken 7 clock_readings sleeping)
unfolding before
run_entry_says_example =
    run_entry_says quiet all_woken 7 clock_readings sleeping
      (record { sorted = ((refl, tt), (tt, tt)); due = tt })

-- The first call resumes the promise, whose coroutine destroys it.
abbrev one_call : List Rounds.Call
one_call =
    record {
      waited = ready (record { address = 1; mask = 1 } ∷ []);
      program = λ es. Epoll.destroys 1 ∷ [];
    }
    ∷ []

run_task_says_example :
    EndedSays kernel
      (λ n. n == 1)
      (λ k. k)
      kernel-IsKernel
      (Rounds.run_task kernel (λ n. n == 1) (Epoll.awaits (waiter 1 4) ∷ []) one_call empty)
run_task_says_example =
    run_task_says kernel (λ n. n == 1) (λ k. k) kernel-IsKernel (Epoll.awaits (waiter 1 4) ∷ [])
      one_call empty empty-IsRegistered
