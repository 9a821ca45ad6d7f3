-- ===== src/Task/Timed/Finish.antt =====
-- When `TimedScheduler::run` of lib/include/task.hpp gets to its end.
use coroutine_http_server.Prelude.{
  ℕ, suc, ◌≤◌, List, [], ◌∷◌, ◌≡◌, ◌≢◌, inl, inr, leb, arith, All, length, Bool-cases,
}
use coroutine_http_server.Task.Timed.{
  Timer, before, erase, Effect, sleeps, destroys, Resumption, entered, woken, Scheduler, effect,
  effects, unfinished, resume, enter_all, wake, timed_loop, run,
}
use coroutine_http_server.Task.Timed.Runs.{timers_cases, loop_over, loop_wake, loop_wait}

-- The effect is no new sleep.
abbrev pub Destroys : Effect → Type 0
Destroys (sleeps now t) = ⊥
Destroys (destroys t) = Unit

length-erase-le : (t : Timer) (us : List Timer) → length (erase t us) ≤ length us
unfolding erase
length-erase-le t [] = omega arith
length-erase-le t (u ∷ us) = ground (arith, length-erase-le t us)

length-erase_self : (t : Timer) (us : List Timer) → length (erase t (t ∷ us)) ≡ length us
unfolding erase before
length-erase_self t us = ground arith

effects-length :
    (es : List Effect) (s : Scheduler)
    → All Destroys es
    → length (effects es s).timed_coros ≤ length s.timed_coros
unfolding effects effect
effects-length [] s h = omega arith
effects-length (sleeps now t ∷ es) s h = absurd h.0
effects-length (destroys t ∷ es) s h =
    omega (arith, length-erase-le t s.timed_coros, effects-length es (effect (destroys t) s) h.1)

module _ (program : List Resumption → List Effect)
    (quiet : (rs : List Resumption) → All Destroys (program rs)) where
  enter_all-length :
      (hs : List ℕ) (s : Scheduler)
      → length (enter_all program hs s).timed_coros ≤ length s.timed_coros
  unfolding enter_all resume
  enter_all-length [] s = omega arith
  enter_all-length (h ∷ hs) s =
      let r = entered h in
      omega (
        arith,
        enter_all-length hs (resume program r s),
        effects-length (program (r ∷ s.resumed)) (record s { resumed = r ∷ s.resumed })
            (quiet (r ∷ s.resumed)),
      )

  wake-length :
      (t : Timer) (others : List Timer) (now : ℕ) (s : Scheduler)
      → s.timed_coros ≡ t ∷ others
      → length (wake program t others now s).timed_coros ≤ length others
  unfolding wake resume
  wake-length t others now s e =
      let r = woken t now others in
      let left : length (erase t s.timed_coros) ≡ length others =
        rw e (length-erase_self t others) in
      omega (
        arith,
        left,
        effects-length (program (r ∷ s.resumed))
            (record s { timed_coros = erase t s.timed_coros; resumed = r ∷ s.resumed })
            (quiet (r ∷ s.resumed)),
      )

  timed_loop-finishes :
      (nows : List ℕ) (s : Scheduler)
      → length s.timed_coros ≤ length nows
      → (timed_loop program nows s).0 ≢ unfinished
  timed_loop-finishes [] s h = elim (timers_cases s.timed_coros) [
    | inl e ↦ rw (loop_over program [] s e) (λ same. cc)
    | inr (t, others, e) ↦
        let none_left : suc (length others) ≤ 0 = rw e at h in absurd (omega arith)
  ]
  timed_loop-finishes (now ∷ nows) s h = elim (timers_cases s.timed_coros) [
    | inl e ↦ rw (loop_over program (now ∷ nows) s e) (λ same. cc)
    | inr (t, others, e) ↦ elim (Bool-cases (leb t.expire now)) [
      | inl due ↦
          let count : suc (length others) ≤ length (now ∷ nows) = rw e at h in
          let fewer = wake-length t others now s e in
          rw (loop_wake program s t others e now nows due)
            (timed_loop-finishes nows (wake program t others now s) (omega (arith, count, fewer)))
      | inr early ↦ rw (loop_wait program s t others e now nows early) (λ same. cc)
    ]
  ]

  -- If the resumed coroutines begin no new sleep, then a call of `run` ends within as many readings of
  -- the clock as coroutines sleep.
  pub run-finishes :
      (nows : List ℕ) (s : Scheduler)
      → length s.timed_coros ≤ length nows
      → (run program nows s).0 ≢ unfinished
  unfolding run
  run-finishes nows s h =
      timed_loop-finishes nows (enter_all program s.ready_coros s)
        (omega (arith, h, enter_all-length s.ready_coros s))
