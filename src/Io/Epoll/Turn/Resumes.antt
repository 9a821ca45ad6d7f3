-- ===== src/Io/Epoll/Turn/Resumes.antt =====
-- Which promises a call of `EpollScheduler::run` resumes, of lib/include/epoll.hpp.
use coroutine_http_server.Prelude.{
  ℕ, false, some, List, [], ◌∷◌, ◌==◌, ◌≡◌, refl, arith, All, Option-cases, Bool-cases, inl, inr,
}
use coroutine_http_server.Prelude.Result.{ok, >>=-eq-ok}
use coroutine_http_server.Io.Epoll.{
  Kernel, Waiter, Scheduler, find_waiter, drop_waiter, add_listener, await_suspend, remove_listener,
  destroy, Act, awaits, destroys, act, acts,
}
use coroutine_http_server.Io.Epoll.Registered.{IsKernel, IsRegistered, acts-IsRegistered}
use coroutine_http_server.Io.Epoll.Turn.{Event, ready, returned, dispatch, run}

abbrev pub Waits : ℕ → List Waiter → Type 0
Waits a ws = (w : Waiter) × (find_waiter a ws ≡ some w)

-- The promise at the address is not destroyed.
abbrev pub Spares : ℕ → Act → Type 0
Spares a (awaits w) = Unit
Spares a (destroys b) = (b == a) ≡ false

drop-Waits :
    (a b : ℕ) (ws : List Waiter) → (b == a) ≡ false → Waits a ws → Waits a (drop_waiter b ws)
unfolding find_waiter drop_waiter
drop-Waits a b [] ne h = h
drop-Waits a b (w ∷ ws) ne (v, h) = (v, kept a b w ws v ne h)
  where
    kept :
        (a b : ℕ) (w : Waiter) (ws : List Waiter) (v : Waiter)
        → (b == a) ≡ false
        → find_waiter a (w ∷ ws) ≡ some v
        → find_waiter a (drop_waiter b (w ∷ ws)) ≡ some v
    kept a b w [] v ne h = ground arith
    kept a b w (u ∷ ws) v ne h = ground (arith, kept a b u ws v)

cons-Waits : (a : ℕ) (w : Waiter) (ws : List Waiter) → Waits a ws → Waits a (w ∷ ws)
unfolding find_waiter
cons-Waits a w ws (v, found) = elim (Bool-cases (w.address == a)) [
  | inl here ↦ (w, ground arith)
  | inr there ↦ (v, ground arith)
]

module _ {K : Type 0} (kernel : Kernel K) where
  act-Waits :
      (a : ℕ) (x : Act) (s s' : Scheduler K)
      → Spares a x
      → act kernel x s ≡ ok s'
      → Waits a s.waiters
      → Waits a s'.waiters
  unfolding act await_suspend add_listener destroy remove_listener
  act-Waits a (awaits w) s s' h e (v, found) =
      elim (Option-cases (kernel.ctl_add w.fd w.events s.epoll)) [
        | inl none_added ↦ (v, ground arith)
        | inr (k, added) ↦
            let same : s'.waiters ≡ w ∷ s.waiters = ground arith in
            rw same (cons-Waits a w s.waiters (v, found))
      ]
  act-Waits a (destroys b) s s' h e (v, found) = elim (Option-cases (find_waiter b s.waiters)) [
    | inl none_there ↦ (v, ground arith)
    | inr (w, there) ↦ elim (Option-cases (kernel.ctl_del w.fd s.epoll)) [
      | inl none_removed ↦ (v, ground arith)
      | inr (k, removed) ↦
          let same : s'.waiters ≡ drop_waiter b s.waiters = ground arith in
          rw same (drop-Waits a b s.waiters h (v, found))
    ]
  ]

  acts-Waits :
      (a : ℕ) (xs : List Act) (s s' : Scheduler K)
      → All (Spares a) xs
      → acts kernel xs s ≡ ok s'
      → Waits a s.waiters
      → Waits a s'.waiters
  unfolding acts
  acts-Waits a [] s s' h e v = let same : s ≡ s' = cc in rw (← same) v
  acts-Waits a (x ∷ xs) s s' h e v =
      let (mid, first, later) = >>=-eq-ok (act kernel x s) _ e in
      acts-Waits a xs mid s' h.1 later (act-Waits a x s mid h.0 first v)

  All-Waits :
      (es : List Event) (xs : List Act) (s s' : Scheduler K)
      → All (λ (e : Event). All (Spares e.address) xs) es
      → acts kernel xs s ≡ ok s'
      → All (λ (e : Event). Waits e.address s.waiters) es
      → All (λ (e : Event). Waits e.address s'.waiters) es
  All-Waits [] xs s s' h e v = tt
  All-Waits (f ∷ es) xs s s' h e v =
      (acts-Waits f.address xs s s' h.0 e v.0, All-Waits es xs s s' h.1 e v.1)

-- The events that are handled, in front of those before.
abbrev pub handled : List Event → List Event → List Event
handled [] before = before
handled (e ∷ es) before = handled es (e ∷ before)

-- No coroutine that is resumed destroys the promise of an event that is still to come.
abbrev pub AreSpared : (List Event → List Act) → List Event → List Event → Type 0
AreSpared program [] before = Unit
AreSpared program (e ∷ es) before =
    All (λ (f : Event). All (Spares f.address) (program (e ∷ before))) es
    × AreSpared program es (e ∷ before)

module _ {K : Type 0} (kernel : Kernel K) (watched : K → List ℕ) (law : IsKernel kernel watched)
    (program : List Event → List Act) where
  dispatch-resumes :
      (es before : List Event) (s : Scheduler K)
      → IsRegistered kernel watched law s
      → All (λ (e : Event). Waits e.address s.waiters) es
      → AreSpared program es before
      → (s' : Scheduler K) × (dispatch kernel program es before s ≡ returned (handled es before) s')
        × IsRegistered kernel watched law s'
  unfolding dispatch
  dispatch-resumes [] before s v waits spared = (s, refl, v)
  dispatch-resumes (e ∷ es) before s v waits spared =
      let (w, found) = waits.0 in
      let xs = program (e ∷ before) in
      let (mid, done_lem, v') = acts-IsRegistered kernel watched law xs s v in
      let (s', later, v'') =
        dispatch-resumes es (e ∷ before) mid v'
          (All-Waits kernel es xs s mid spared.0 done_lem waits.1) spared.1 in
      (s', rw (dispatch, found, done_lem) later, v'')

  -- Under a kernel that does what the manual says: if the promises of the events wait, and no resumed
  -- coroutine destroys the promise of an event still to come, then `run` resumes each promise in the
  -- order of the events, uses none that is gone, and returns with the count and the kernel in accord.
  pub run-resumes :
      (es : List Event) (s : Scheduler K)
      → IsRegistered kernel watched law s
      → All (λ (e : Event). Waits e.address s.waiters) es
      → AreSpared program es []
      → (s' : Scheduler K) × (run kernel program (ready es) s ≡ returned (handled es []) s')
        × IsRegistered kernel watched law s'
  unfolding run
  run-resumes es s v waits spared = dispatch-resumes es [] s v waits spared
