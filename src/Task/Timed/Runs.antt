-- ===== src/Task/Timed/Runs.antt =====
-- `TimedScheduler::run` of lib/include/task.hpp, for every program and every list of clock readings.
use coroutine_http_server.Prelude.{
  ℕ, ◌+◌, ◌-◌, ◌<◌, ◌≤◌, true, false, List, [], ◌∷◌, ◌≡◌, ◌≢◌, ◌⊎◌, inl, inr, refl, leb, arith, All,
  Bool-cases,
}
use coroutine_http_server.Task.Timed.{
  Timer, before, erase, Effect, sleeps, destroys, Resumption, entered, woken, Scheduler, effect,
  effects, Pause, wait, over, unfinished, resume, enter_all, wake, timed_loop, run,
}
use coroutine_http_server.Task.Timed.Order.{IsSorted, before-le, insert-IsSorted, erase-IsSorted}

-- A sleeping coroutine was resumed at its time or later, and before all that were to wake later.
abbrev pub IsDue : Resumption → Type 0
IsDue (entered h) = Unit
IsDue (woken t now others) = (t.expire ≤ now) × All (λ (u : Timer). t.expire ≤ u.expire) others

pub record IsOrderly (s : Scheduler) : Type 0 where
  pub sorted : IsSorted s.timed_coros
  pub due : All IsDue s.resumed

effect-IsOrderly : (e : Effect) (s : Scheduler) → IsOrderly s → IsOrderly (effect e s)
unfolding effect
effect-IsOrderly (sleeps now t) s v = ground (arith, insert-IsSorted t s.timed_coros v.sorted)
effect-IsOrderly (destroys t) s v = record {
  sorted = erase-IsSorted t s.timed_coros v.sorted;
  due = v.due;
}

effects-IsOrderly : (es : List Effect) (s : Scheduler) → IsOrderly s → IsOrderly (effects es s)
unfolding effects
effects-IsOrderly [] s v = v
effects-IsOrderly (e ∷ es) s v = effects-IsOrderly es (effect e s) (effect-IsOrderly e s v)

-- The reading is one of the list.
abbrev pub Among : ℕ → List ℕ → Type 0
Among now [] = ⊥
Among now (n ∷ ns) = (n ≡ now) ⊎ Among now ns

-- What the end of a call says of the scheduler: to wait from the last reading until the first
-- coroutine wakes, which is later than that reading; or that none sleeps.
abbrev pub Says : List ℕ → Pause → Scheduler → Type 0
Says nows (wait d) s =
    (now : ℕ) × (t : Timer) × (others : List Timer) × Among now nows
    × (s.timed_coros ≡ t ∷ others)
    × (0 < d)
    × (t.expire ≡ now + d)
    × All (λ (u : Timer). now < u.expire) s.timed_coros
Says nows over s = s.timed_coros ≡ []
Says nows unfinished s = s.timed_coros ≢ []

All-later :
    (now : ℕ) (t : Timer) (us : List Timer)
    → now < t.expire
    → All (λ v. before t v ≡ true) us
    → All (λ (u : Timer). now < u.expire) us
All-later now t [] lt h = tt
All-later now t (u ∷ us) lt h = (omega (arith, before-le t u h.0), All-later now t us lt h.1)

All-le :
    (t : Timer) (us : List Timer)
    → All (λ v. before t v ≡ true) us
    → All (λ (u : Timer). t.expire ≤ u.expire) us
All-le t [] h = tt
All-le t (u ∷ us) h = (before-le t u h.0, All-le t us h.1)

pub timers_cases :
    (ts : List Timer) → (ts ≡ []) ⊎ ((t : Timer) × (others : List Timer) × (ts ≡ t ∷ others))
timers_cases [] = inl refl
timers_cases (t ∷ others) = inr (t, others, refl)

Says-later :
    (now : ℕ) (nows : List ℕ) (p : Pause) (s : Scheduler) → Says nows p s → Says (now ∷ nows) p s
Says-later now nows (wait d) s (now', t, others, among, e, pos, d_lem, late) =
    (now', t, others, inr among, e, pos, d_lem, late)
Says-later now nows over s h = h
Says-later now nows unfinished s h = h

module _ (program : List Resumption → List Effect) where
  pub resume-IsOrderly :
      (r : Resumption) (s : Scheduler) → IsDue r → IsOrderly s → IsOrderly (resume program r s)
  unfolding resume
  resume-IsOrderly r s d v =
      effects-IsOrderly (program (r ∷ s.resumed)) (record s { resumed = r ∷ s.resumed })
        (record { sorted = v.sorted; due = (d, v.due) })

  enter_all-IsOrderly :
      (hs : List ℕ) (s : Scheduler) → IsOrderly s → IsOrderly (enter_all program hs s)
  unfolding enter_all
  enter_all-IsOrderly [] s v = record { sorted = v.sorted; due = v.due }
  enter_all-IsOrderly (h ∷ hs) s v =
      enter_all-IsOrderly hs (resume program (entered h) s) (resume-IsOrderly (entered h) s tt v)

  wake-IsOrderly :
      (t : Timer) (others : List Timer) (now : ℕ) (s : Scheduler)
      → s.timed_coros ≡ t ∷ others
      → t.expire ≤ now
      → IsOrderly s
      → IsOrderly (wake program t others now s)
  unfolding wake
  wake-IsOrderly t others now s e late v =
      let sorted : IsSorted (t ∷ others) = rw e at v.sorted in
      resume-IsOrderly (woken t now others) (record s { timed_coros = erase t s.timed_coros })
        (late, All-le t others sorted.0)
        (record { sorted = erase-IsSorted t s.timed_coros v.sorted; due = v.due })

  -- The ways in which a round of the loop goes.
  pub loop_over :
      (nows : List ℕ) (s : Scheduler) → s.timed_coros ≡ [] → timed_loop program nows s ≡ (over, s)
  unfolding timed_loop
  loop_over [] s e = ground arith
  loop_over (now ∷ nows) s e = ground arith

  module _ (s : Scheduler) (t : Timer) (others : List Timer) (e : s.timed_coros ≡ t ∷ others) where
    pub loop_unfinished : timed_loop program [] s ≡ (unfinished, s)
    unfolding timed_loop
    loop_unfinished = ground arith

    pub loop_wake :
        (now : ℕ) (nows : List ℕ)
        → leb t.expire now ≡ true
        → timed_loop program (now ∷ nows) s ≡ timed_loop program nows (wake program t others now s)
    unfolding timed_loop
    loop_wake now nows due = ground arith

    pub loop_wait :
        (now : ℕ) (nows : List ℕ)
        → leb t.expire now ≡ false
        → timed_loop program (now ∷ nows) s ≡ (wait (t.expire - now), s)
    unfolding timed_loop
    loop_wait now nows early = ground arith

  -- The scheduler is orderly at the end, and the end says what it should.
  abbrev pub Ends : List ℕ → Pause × Scheduler → Type 0
  Ends nows (p, s) = IsOrderly s × Says nows p s

  timed_loop-Ends :
      (nows : List ℕ) (s : Scheduler) → IsOrderly s → Ends nows (timed_loop program nows s)
  timed_loop-Ends [] s v = elim (timers_cases s.timed_coros) [
    | inl e ↦ rw (loop_over [] s e) (v, e)
    | inr (t, others, e) ↦ rw (loop_unfinished s t others e) (v, λ none_left. cc)
  ]
  timed_loop-Ends (now ∷ nows) s v = elim (timers_cases s.timed_coros) [
    | inl e ↦ rw (loop_over (now ∷ nows) s e) (v, e)
    | inr (t, others, e) ↦ elim (Bool-cases (leb t.expire now)) [
      | inl due ↦
          let s' = wake program t others now s in
          let v' = wake-IsOrderly t others now s e (ground arith) v in
          let (orderly, says) = timed_loop-Ends nows s' v' in
          rw (loop_wake s t others e now nows due) (orderly, Says-later now nows _ _ says)
      | inr early ↦
          let lt : now < t.expire = ground arith in
          let sorted : IsSorted (t ∷ others) = rw e at v.sorted in
          let late : All (λ (u : Timer). now < u.expire) (t ∷ others) =
            (lt, All-later now t others lt sorted.0) in
          rw (loop_wait s t others e now nows early)
            (v, (now, t, others, inl refl, e, omega (arith, lt), omega (arith, lt), rw e late))
    ]
  ]

  -- For every program: a scheduler whose set is in order and that has woken nobody early or out of turn
  -- stays so in a call of `run`. If the call says to wait, then from a reading of the clock until the
  -- first coroutine wakes, and all wake later than that reading; if it says that there is nothing to wait
  -- for, then no coroutine sleeps.
  pub run-Ends :
      (nows : List ℕ) (s : Scheduler)
      → IsOrderly s
      → IsOrderly (run program nows s).1 × Says nows (run program nows s).0 (run program nows s).1
  unfolding run
  run-Ends nows s v =
      timed_loop-Ends nows (enter_all program s.ready_coros s)
        (enter_all-IsOrderly s.ready_coros s v)
