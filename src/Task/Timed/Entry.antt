-- ===== src/Task/Timed/Entry.antt =====
-- The `run` of `TimedScheduler` in lib/include/task.hpp that takes an entry point, and `sleep_for`. Whether
-- the coroutine of the entry point is done, by all that was resumed so far, is a parameter, as is what the
-- resumed coroutines do.
use coroutine_http_server.Prelude.{
  ℕ, ◌+◌, ◌<◌, Bool, true, false, List, [], ◌∷◌, ◌≡◌, ◌⊎◌, inl, inr, refl, Bool-cases, All,
}
use coroutine_http_server.Task.Timed.{
  Effect, Resumption, entered, Scheduler, Pause, wait, over, unfinished, sleep_until, resume, run,
}
use coroutine_http_server.Task.Timed.Runs.{IsOrderly, Says, run-Ends, resume-IsOrderly}

-- `sleep_for`, with the reading of the clock by which the time to wake is set, and that of the sleep.
unfoldable pub sleep_for : ℕ → ℕ → ℕ → ℕ → Scheduler → Scheduler
unfolding sleep_until
sleep_for set_at duration now address s =
    sleep_until now (record { expire = set_at + duration; address = address }) s

-- How the inner loop ends: no coroutine sleeps, or it is not at its end within the calls of `run`; with
-- the times for which the thread slept, the last one first.
pub data Drained : Type 0 where
  drained : List ℕ → Scheduler → Drained
  waiting : Drained

-- How `run` ends: it returns the result of the promise; the assertion fails, since the entry point is not
-- done and nothing is left to run; or it is not at its end.
pub data Ended : Type 0 where
  returned : List ℕ → Scheduler → Ended
  aborted : List ℕ → Scheduler → Ended
  unended : Ended

module _ (program : List Resumption → List Effect) (done : List Resumption → Bool) where
  -- `while (auto delay = run()) sleep_for(*delay)`, with the readings of the clock in each call of `run`.
  unfoldable pub drain : List (List ℕ) → List ℕ → Scheduler → Drained
  unfolding run
  drain [] slept s = waiting
  drain (nows ∷ calls) slept s = elim ((run program nows s).0) [
    | wait d ↦ drain calls (d ∷ slept) (run program nows s).1
    | over ↦ drained slept (run program nows s).1
    | unfinished ↦ waiting
  ]

  -- What stands behind the inner loop: the test of the outer one, and the assertion in its second round.
  unfoldable pub ended : Drained → Ended
  ended waiting = unended
  ended (drained slept s) = elim (done s.resumed) [
    | true ↦ returned slept s
    | false ↦ aborted slept s
  ]

  unfoldable pub run_entry : ℕ → List (List ℕ) → Scheduler → Ended
  unfolding drain ended resume
  run_entry entry_point calls s = elim (done s.resumed) [
    | true ↦ returned [] s
    | false ↦ ended (drain calls [] (resume program (entered entry_point) s))
  ]

  -- At the end of the inner loop no coroutine sleeps, and every sleep of the thread was for some time.
  abbrev DrainedWell : Drained → Type 0
  DrainedWell waiting = Unit
  DrainedWell (drained slept s) = IsOrderly s × (s.timed_coros ≡ []) × All (λ d. 0 < d) slept

  drain-DrainedWell :
      (calls : List (List ℕ)) (slept : List ℕ) (s : Scheduler)
      → IsOrderly s
      → All (λ d. 0 < d) slept
      → DrainedWell (drain calls slept s)
  unfolding drain
  drain-DrainedWell [] slept s v h = tt
  drain-DrainedWell (nows ∷ calls) slept s v h =
      round ((run program nows s).0) refl (run-Ends program nows s v)
        (λ d. drain-DrainedWell calls (d ∷ slept) (run program nows s).1)
    where
      round :
          (p : Pause)
          → (run program nows s).0 ≡ p
          → IsOrderly (run program nows s).1
            × Says nows (run program nows s).0 (run program nows s).1
          → ((d : ℕ)
              → IsOrderly (run program nows s).1
              → All (λ d'. 0 < d') (d ∷ slept)
              → DrainedWell (drain calls (d ∷ slept) (run program nows s).1))
          → DrainedWell (drain (nows ∷ calls) slept s)
      round (wait d) e (v', says) later =
          let (now, t, others, among, same, pos, _, _) : Says nows (wait d) (run program nows s).1 =
            rw e at says in
          rw (e, drain) (later d v' (pos, h))
      round over e (v', says) later = rw (e, drain) (v', rw e at says, h)
      round unfinished e (v', says) later = rw (e, drain) tt

  -- What the end of `run` says.
  abbrev pub SaysEnded : Scheduler → Ended → Type 0
  SaysEnded s (returned slept s') =
      IsOrderly s'
      × (done s'.resumed ≡ true)
      × ((s' ≡ s) ⊎ ((s'.timed_coros ≡ []) × All (λ d. 0 < d) slept))
  SaysEnded s (aborted slept s') =
      IsOrderly s' × (done s'.resumed ≡ false) × (s'.timed_coros ≡ []) × All (λ d. 0 < d) slept
  SaysEnded s unended = Unit

  ended-SaysEnded : (s : Scheduler) (d : Drained) → DrainedWell d → SaysEnded s (ended d)
  unfolding ended
  ended-SaysEnded s waiting h = tt
  ended-SaysEnded s (drained slept s') (v, empty, pos) = elim (Bool-cases (done s'.resumed)) [
    | inl e ↦ rw (e, ended) (v, e, inr (empty, pos))
    | inr e ↦ rw (e, ended) (v, e, empty, pos)
  ]

  -- From an orderly scheduler: if `run` returns, then the entry point is done, and unless it was done
  -- before the call, no coroutine sleeps and the thread slept for some time in each of its sleeps; if the
  -- assertion fails, then no coroutine sleeps and the entry point is not done.
  pub run_entry_says :
      (entry_point : ℕ) (calls : List (List ℕ)) (s : Scheduler)
      → IsOrderly s
      → SaysEnded s (run_entry entry_point calls s)
  unfolding run_entry
  run_entry_says entry_point calls s v = elim (Bool-cases (done s.resumed)) [
    | inl e ↦ rw (e, run_entry) (v, e, inl refl)
    | inr e ↦
        let s' = resume program (entered entry_point) s in
        let v' = resume-IsOrderly program (entered entry_point) s tt v in
        rw (e, run_entry)
          (ended-SaysEnded s (drain calls [] s') (drain-DrainedWell calls [] s' v' tt))
  ]
