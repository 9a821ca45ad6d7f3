-- ===== src/Io/Epoll.antt =====
-- `EpollScheduler`, `EpollFileAwaiter` and `EpollFilePromise` of lib/include/epoll.hpp. The kernel's
-- part is a parameter: the set of descriptors that an epoll descriptor watches, and what `epoll_ctl`
-- does to it. A promise is known by its address.
pub mod Timeout
pub mod Registered
pub mod Turn
use coroutine_http_server.Prelude.{
  ℕ, suc, zero, ◌+◌, ◌-◌, ◌/◌, ◌%◌, ◌^◌, Bool, true, false, not, Option, none, some, List, [], ◌∷◌,
  ◌==◌, ltb, if◌then◌else◌, ◌≡◌,
}
use coroutine_http_server.Prelude.Result.{Result, ok, throws, syscall_error, ◌>>=◌}
use coroutine_http_server.Prelude.Decimal.{ℤ, pos, negsuc}

-- `epoll_ctl` with `EPOLL_CTL_ADD` and `EPOLL_CTL_DEL`, none for -1. The manual says that a
-- descriptor is added once, and that one that was added can be taken out.
pub record Kernel (K : Type 0) : Type 0 where
  pub ctl_add : ℕ → ℕ → K → Option K
  pub ctl_del : ℕ → K → Option K

-- A promise whose `awaiter_` is not null: its address, and the `fd_` and `events_` of the awaiter.
pub record Waiter : Type 0 where
  pub address : ℕ
  pub fd : ℕ
  pub events : ℕ

pub record Scheduler (K : Type 0) : Type 0 where
  pub epoll : K
  pub registered_cnt : ℤ
  pub waiters : List Waiter

abbrev pub increment : ℤ → ℤ
increment (pos n) = pos (suc n)
increment (negsuc zero) = pos 0
increment (negsuc (suc n)) = negsuc n

abbrev pub decrement : ℤ → ℤ
decrement (pos zero) = negsuc 0
decrement (pos (suc n)) = pos n
decrement (negsuc n) = negsuc (suc n)

-- `have_registered_events`
abbrev pub have_registered_events : ℤ → Bool
have_registered_events (pos zero) = false
have_registered_events (pos (suc n)) = true
have_registered_events (negsuc n) = true

-- The waiter at an address, and the others.
unfoldable pub find_waiter : ℕ → List Waiter → Option Waiter
find_waiter a [] = none
find_waiter a (w ∷ ws) = if w.address == a then some w else find_waiter a ws

unfoldable pub drop_waiter : ℕ → List Waiter → List Waiter
drop_waiter a [] = []
drop_waiter a (w ∷ ws) = let rest = drop_waiter a ws in if w.address == a then ws else w ∷ rest

-- Nanoseconds in a millisecond.
abbrev pub ms : ℕ
ms = 1000000

-- The conversion of a count to `int`.
abbrev pub to_int : ℕ → ℤ
to_int n = let m = n % 2 ^ 32 in if ltb m (2 ^ 31) then pos m else negsuc (2 ^ 32 - 1 - m)

-- The timeout that `run` hands to `epoll_wait`; a duration is not negative, and counts nanoseconds.
unfoldable pub timeout_of : Option ℕ → ℤ
timeout_of none = negsuc 0
timeout_of (some d) = to_int (d / ms)

-- What coroutines do to the scheduler; an exception of `await_suspend` goes to the coroutine.
pub data Act : Type 0 where
  awaits : Waiter → Act
  destroys : ℕ → Act

module _ {K : Type 0} (kernel : Kernel K) where
  -- `add_listener` with `EPOLL_CTL_ADD`, by which all awaiters are made; none for false.
  unfoldable pub add_listener : Waiter → Scheduler K → Option (Scheduler K)
  add_listener w s = elim (kernel.ctl_add w.fd w.events s.epoll) [
    | none ↦ none
    | some k ↦ some (record s { epoll = k; registered_cnt = increment s.registered_cnt })
  ]

  -- `EpollFileAwaiter::await_suspend`: a promise that could not be added has no awaiter.
  unfoldable pub await_suspend : Waiter → Scheduler K → Result (Scheduler K)
  unfolding add_listener
  await_suspend w s = elim (add_listener w s) [
    | none ↦ throws (syscall_error "epoll_ctl")
    | some s' ↦ ok (record s' { waiters = w ∷ s'.waiters })
  ]

  unfoldable pub remove_listener : ℕ → Scheduler K → Result (Scheduler K)
  remove_listener fd s = elim (kernel.ctl_del fd s.epoll) [
    | none ↦ throws (syscall_error "epoll_ctl")
    | some k ↦ ok (record s { epoll = k; registered_cnt = decrement s.registered_cnt })
  ]

  -- `~EpollFilePromise`
  unfoldable pub destroy : ℕ → Scheduler K → Result (Scheduler K)
  unfolding remove_listener find_waiter drop_waiter
  destroy a s = elim (find_waiter a s.waiters) [
    | none ↦ ok s
    | some w ↦ do s' ← remove_listener w.fd s; ok (record s' { waiters = drop_waiter a s'.waiters })
  ]

  unfoldable pub act : Act → Scheduler K → Result (Scheduler K)
  unfolding await_suspend destroy
  act (awaits w) s = elim (await_suspend w s) [ throws e ↦ ok s | ok s' ↦ ok s' ]
  act (destroys a) s = destroy a s

  unfoldable pub acts : List Act → Scheduler K → Result (Scheduler K)
  unfolding act
  acts [] s = ok s
  acts (a ∷ rest) s = do s' ← act a s; acts rest s'
