-- ===== src/Io/Epoll/Turn/Rounds.antt =====
-- The `run` of `EpollScheduler` in lib/include/epoll.hpp that takes a task: it resumes the task, and
-- calls `run` until the task is done. After which of the calls that is, and what is resumed in each of
-- them, is a parameter.
use coroutine_http_server.Prelude.{
  ℕ, suc, Bool, true, false, List, [], ◌∷◌, ◌==◌, ◌≡◌, refl, Option-cases, Bool-cases, inl, inr,
}
use coroutine_http_server.Prelude.Result.{Exception, ok, throws, syscall_error}
use coroutine_http_server.Io.Epoll.{Kernel, Scheduler, find_waiter, Act, acts}
use coroutine_http_server.Io.Epoll.Registered.{IsKernel, IsRegistered, acts-IsRegistered}
use coroutine_http_server.Io.Epoll.Turn.{
  Event, Waited, ready, failed, Turn, returned, dangling, threw, eintr, dispatch, run,
}

-- How it ends: the task is done, after that many calls; or it still waits; or a call uses a promise that
-- is gone, or throws.
pub data Ended (K : Type 0) : Type 0 where
  finished : ℕ → Scheduler K → Ended K
  waiting : Ended K
  broken : Ended K
  failed_with : Exception → Ended K

-- A call: what `epoll_wait` gives, and what the promises do that are resumed.
pub record Call : Type 0 where
  pub waited : Waited
  pub program : List Event → List Act

module _ {K : Type 0} (kernel : Kernel K) (done : ℕ → Bool) where
  -- `while (!task.coro_.done()) run()`, after `n` calls
  unfoldable pub rounds : ℕ → List Call → Scheduler K → Ended K
  unfolding run
  rounds n [] s = elim (done n) [ true ↦ finished n s | false ↦ waiting ]
  rounds n (c ∷ calls) s = elim (done n) [
    | true ↦ finished n s
    | false ↦ elim (run kernel c.program c.waited s) [
      | returned resumed s' ↦ rounds (suc n) calls s'
      | dangling ↦ broken
      | threw e ↦ failed_with e
    ]
  ]

  -- `run(task)`, with what the task does when it is resumed first
  unfoldable pub run_task : List Act → List Call → Scheduler K → Ended K
  unfolding rounds
  run_task start calls s = elim (acts kernel start s) [
    | throws e ↦ failed_with e
    | ok s' ↦ rounds 0 calls s'
  ]

  module _ (watched : K → List ℕ) (law : IsKernel kernel watched) where
    -- What a call leaves behind, with the exception that it may throw.
    abbrev TurnSays : Exception → Turn K → Type 0
    TurnSays x (returned resumed s) = IsRegistered kernel watched law s
    TurnSays x dangling = Unit
    TurnSays x (threw e) = e ≡ x

    dispatch-TurnSays :
        (program : List Event → List Act) (x : Exception) (es resumed : List Event)
        (s : Scheduler K)
        → IsRegistered kernel watched law s
        → TurnSays x (dispatch kernel program es resumed s)
    unfolding dispatch
    dispatch-TurnSays program x [] resumed s v = v
    dispatch-TurnSays program x (e ∷ es) resumed s v =
        elim (Option-cases (find_waiter e.address s.waiters)) [
          | inl gone ↦ rw (gone, dispatch) tt
          | inr (w, there) ↦
              let (s', same, v') =
                acts-IsRegistered kernel watched law (program (e ∷ resumed)) s v in
              rw (there, same, dispatch) (dispatch-TurnSays program x es (e ∷ resumed) s' v')
        ]

    run-TurnSays :
        (program : List Event → List Act) (w : Waited) (s : Scheduler K)
        → IsRegistered kernel watched law s
        → TurnSays (syscall_error "epoll_wait") (run kernel program w s)
    unfolding run dispatch
    run-TurnSays program (ready es) s v = dispatch-TurnSays program _ es [] s v
    run-TurnSays program (failed err) s v = elim (Bool-cases (err == eintr)) [
      | inl e ↦ rw (e, run) v
      | inr e ↦ rw (e, run) refl
    ]

    -- What the end of `run(task)` says.
    abbrev pub EndedSays : Ended K → Type 0
    EndedSays (finished n s) = (done n ≡ true) × IsRegistered kernel watched law s
    EndedSays waiting = Unit
    EndedSays broken = Unit
    EndedSays (failed_with e) = e ≡ syscall_error "epoll_wait"

    rounds-EndedSays :
        (n : ℕ) (calls : List Call) (s : Scheduler K)
        → IsRegistered kernel watched law s
        → EndedSays (rounds n calls s)
    unfolding rounds
    rounds-EndedSays n [] s v = elim (Bool-cases (done n)) [
      | inl e ↦ rw (e, rounds) (e, v)
      | inr e ↦ rw (e, rounds) tt
    ]
    rounds-EndedSays n (c ∷ calls) s v = elim (Bool-cases (done n)) [
      | inl e ↦ rw (e, rounds) (e, v)
      | inr e ↦
          after e (run kernel c.program c.waited s) refl (run-TurnSays c.program c.waited s v)
            (λ s' v'. rounds-EndedSays (suc n) calls s' v')
    ]
      where
        after :
            done n ≡ false
            → (t : Turn K) → run kernel c.program c.waited s ≡ t
            → TurnSays (syscall_error "epoll_wait") (run kernel c.program c.waited s)
            → ((s' : Scheduler K)
                → IsRegistered kernel watched law s'
                → EndedSays (rounds (suc n) calls s'))
            → EndedSays (rounds n (c ∷ calls) s)
        after more (returned resumed s') e says later =
            rw (more, e, rounds) (later s' (rw e at says))
        after more dangling e says later = rw (more, e, rounds) tt
        after more (threw x) e says later = rw (more, e, rounds) (rw e at says)

    -- Under a kernel that does what the manual says, from a scheduler that has registered the promises
    -- that wait: if `run` of a task returns, then the task is done, and the kernel watches the descriptors
    -- of the promises that still wait, each once, and the count is their number; if it throws, then it is
    -- because `epoll_wait` failed.
    pub run_task_says :
        (start : List Act) (calls : List Call) (s : Scheduler K)
        → IsRegistered kernel watched law s
        → EndedSays (run_task start calls s)
    unfolding run_task
    run_task_says start calls s v =
        let (s', same, v') = acts-IsRegistered kernel watched law start s v in
        rw (same, run_task) (rounds-EndedSays 0 calls s' v')
