-- ===== src/Io/Epoll/Turn.antt =====
-- `EpollScheduler::run` of lib/include/epoll.hpp: one call of `epoll_wait`, and the promises that are
-- resumed. What a resumed coroutine does to the scheduler is a parameter. The pointer of an event may be
-- that of a promise that is gone, which the source does not look at.
pub mod Resumes
pub mod Rounds
use coroutine_http_server.Prelude.{ℕ, Bool, none, some, List, [], ◌∷◌, ◌==◌, if◌then◌else◌}
use coroutine_http_server.Prelude.Result.{Exception, ok, throws, syscall_error}
use coroutine_http_server.Io.Epoll.{Kernel, Scheduler, find_waiter, Act, acts}

-- An event: `data.ptr`, and the mask.
pub record Event : Type 0 where
  pub address : ℕ
  pub mask : ℕ

-- What `epoll_wait` gives: at most 1024 events, or an `errno`.
pub data Waited : Type 0 where
  ready : List Event → Waited
  failed : ℕ → Waited

abbrev pub eintr : ℕ
eintr = 4

-- How `run` ends: it returns, with the events by which promises were resumed, the last one first; it
-- uses a promise that is gone; or it throws.
pub data Turn (K : Type 0) : Type 0 where
  returned : List Event → Scheduler K → Turn K
  dangling : Turn K
  threw : Exception → Turn K

module _ {K : Type 0} (kernel : Kernel K) (program : List Event → List Act) where
  -- The loop over the events.
  unfoldable pub dispatch : List Event → List Event → Scheduler K → Turn K
  dispatch [] resumed s = returned resumed s
  dispatch (e ∷ es) resumed s = elim (find_waiter e.address s.waiters) [
    | none ↦ dangling
    | some w ↦ elim (acts kernel (program (e ∷ resumed)) s) [
      | throws x ↦ threw x
      | ok s' ↦ dispatch es (e ∷ resumed) s'
    ]
  ]

  unfoldable pub run : Waited → Scheduler K → Turn K
  unfolding dispatch
  run (ready es) s = dispatch es [] s
  run (failed err) s = if err == eintr then dispatch [] [] s else threw (syscall_error "epoll_wait")
