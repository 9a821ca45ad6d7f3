-- ===== src/Io/Epoll/Registered.antt =====
-- The count of `EpollScheduler`, and the promises that it counts, of lib/include/epoll.hpp.
use coroutine_http_server.Prelude.{
  ℕ, suc, Bool, true, false, none, some, List, [], ◌∷◌, ◌==◌, ◌≡◌, ◌≢◌, refl, sym, ap, ◌∙◌, arith,
  length, if◌then◌else◌, Option-cases, Bool-cases, inl, inr,
}
use coroutine_http_server.Prelude.Result.{Exception, ok, throws, syscall_error}
use coroutine_http_server.Prelude.Decimal.{pos}
use coroutine_http_server.Io.Epoll.{
  Kernel, Waiter, Scheduler, increment, decrement, find_waiter, drop_waiter, add_listener,
  await_suspend, remove_listener, destroy, Act, awaits, destroys, act, acts,
}

abbrev pub among : ℕ → List ℕ → Bool
among fd [] = false
among fd (f ∷ fs) = if f == fd then true else among fd fs

abbrev pub without : ℕ → List ℕ → List ℕ
without fd [] = []
without fd (f ∷ fs) = if f == fd then fs else f ∷ without fd fs

-- What the manual says of `epoll_ctl`, on the descriptors that are watched.
pub record IsKernel {K : Type 0} (kernel : Kernel K) (watched : K → List ℕ) : Type 0 where
  pub add :
      (fd events : ℕ) (k k' : K)
      → kernel.ctl_add fd events k ≡ some k'
      → (among fd (watched k) ≡ false) × (watched k' ≡ fd ∷ watched k)
  pub del :
      (fd : ℕ) (k : K)
      → among fd (watched k) ≡ true
      → (k' : K) × (kernel.ctl_del fd k ≡ some k') × (watched k' ≡ without fd (watched k))

abbrev pub fds : List Waiter → List ℕ
fds [] = []
fds (w ∷ ws) = w.fd ∷ fds ws

abbrev pub AreDistinct : List ℕ → Type 0
AreDistinct [] = Unit
AreDistinct (f ∷ fs) = (among f fs ≡ false) × AreDistinct fs

-- A waiter that is found is watched, and leaves the others behind.
found_among :
    (a : ℕ) (ws : List Waiter) (w : Waiter) → find_waiter a ws ≡ some w → among w.fd (fds ws) ≡ true
unfolding find_waiter
found_among a [] w e = cc
found_among a (v ∷ ws) w e = ground (arith, found_among a ws w)

apart : (f g : ℕ) (fs : List ℕ) → among f fs ≡ false → among g fs ≡ true → (f == g) ≡ false
apart f g fs h k = elim (Bool-cases (f == g)) [
  | inl e ↦ let same : f ≡ g = ground arith in cc
  | inr e ↦ e
]

found_drop :
    (a : ℕ) (ws : List Waiter) (w : Waiter)
    → AreDistinct (fds ws)
    → find_waiter a ws ≡ some w
    → (fds (drop_waiter a ws) ≡ without w.fd (fds ws))
      × (suc (length (drop_waiter a ws)) ≡ length ws)
unfolding find_waiter drop_waiter
found_drop a [] w d e = cc
found_drop a (v ∷ ws) w d e = elim (Bool-cases (v.address == a)) [
  | inl here ↦ ground arith
  | inr there ↦
      let later : find_waiter a ws ≡ some w = ground arith in
      let (same, size) = found_drop a ws w d.1 later in
      let other : (v.fd == w.fd) ≡ false =
        apart v.fd w.fd (fds ws) d.0 (found_among a ws w later) in
      (
        rw (drop_waiter, there, other) (ap (◌∷◌ v.fd) same),
        rw (drop_waiter, there) (omega (arith, size)),
      )
]

without-among : (fd f : ℕ) (fs : List ℕ) → among f fs ≡ false → among f (without fd fs) ≡ false
without-among fd f [] h = refl
without-among fd f (g ∷ fs) h = ground (arith, without-among fd f fs)

without-AreDistinct : (fd : ℕ) (fs : List ℕ) → AreDistinct fs → AreDistinct (without fd fs)
without-AreDistinct fd [] d = tt
without-AreDistinct fd (f ∷ fs) d = ground (arith, without-among fd f fs, without-AreDistinct fd fs)

module _ {K : Type 0} (kernel : Kernel K) (watched : K → List ℕ)
    (law : IsKernel kernel watched) where
  -- The kernel watches the descriptors of the promises that wait, each once, and the count is their
  -- number.
  pub record IsRegistered (s : Scheduler K) : Type 0 where
    pub watches : watched s.epoll ≡ fds s.waiters
    pub distinct : AreDistinct (fds s.waiters)
    pub count : s.registered_cnt ≡ pos (length s.waiters)

  throws-ne-ok : {x : Exception} {s : Scheduler K} → throws x ≢ ok s
  throws-ne-ok e = cc

  ok-injective : {s s' : Scheduler K} → ok s ≡ ok s' → s ≡ s'
  ok-injective e = cc

  await_none :
      (w : Waiter) (s : Scheduler K)
      → kernel.ctl_add w.fd w.events s.epoll ≡ none
      → await_suspend kernel w s ≡ throws (syscall_error "epoll_ctl")
  unfolding await_suspend add_listener
  await_none w s e = rw (await_suspend, e) refl

  await_some :
      (w : Waiter) (s : Scheduler K) (k : K)
      → kernel.ctl_add w.fd w.events s.epoll ≡ some k
      → await_suspend kernel w s
        ≡ ok (record {
          epoll = k;
          registered_cnt = increment s.registered_cnt;
          waiters = w ∷ s.waiters;
        })
  unfolding await_suspend add_listener
  await_some w s k e = rw (await_suspend, e) refl

  await_suspend-IsRegistered :
      (w : Waiter) (s s' : Scheduler K)
      → IsRegistered s
      → await_suspend kernel w s ≡ ok s'
      → IsRegistered s'
  await_suspend-IsRegistered w s s' v e =
      elim (Option-cases (kernel.ctl_add w.fd w.events s.epoll)) [
        | inl none_added ↦ absurd (throws-ne-ok (sym (await_none w s none_added) ∙ e))
        | inr (k, added) ↦
            let (fresh, watches) = law.add w.fd w.events s.epoll k added in
            let same = ok-injective (sym (await_some w s k added) ∙ e) in
            rw (← same) (record {
              watches = watches ∙ ap (◌∷◌ w.fd) v.watches;
              distinct = (ap (among w.fd) (sym v.watches) ∙ fresh, v.distinct);
              count = ap increment v.count;
            })
      ]

  destroy-some :
      (a : ℕ) (s : Scheduler K) (w : Waiter) (k : K)
      → find_waiter a s.waiters ≡ some w
      → kernel.ctl_del w.fd s.epoll ≡ some k
      → destroy kernel a s
        ≡ ok (record {
          epoll = k;
          registered_cnt = decrement s.registered_cnt;
          waiters = drop_waiter a s.waiters;
        })
  unfolding destroy remove_listener
  destroy-some a s w k found removed = rw (destroy, found, remove_listener, removed) refl

  destroy-IsRegistered :
      (a : ℕ) (s : Scheduler K)
      → IsRegistered s
      → (s' : Scheduler K) × (destroy kernel a s ≡ ok s') × IsRegistered s'
  unfolding destroy
  destroy-IsRegistered a s v = elim (Option-cases (find_waiter a s.waiters)) [
    | inl e ↦ (s, rw (destroy, e) refl, v)
    | inr (w, found) ↦
        let (same, size) = found_drop a s.waiters w v.distinct found in
        let watched_now = ap (among w.fd) v.watches ∙ found_among a s.waiters w found in
        let (k, removed, watches) = law.del w.fd s.epoll watched_now in
        (
          _,
          destroy-some a s w k found removed,
          record {
            watches = watches ∙ (ap (without w.fd) v.watches ∙ sym same);
            distinct = rw same (without-AreDistinct w.fd (fds s.waiters) v.distinct);
            count = ap decrement (v.count ∙ ap pos (sym size));
          },
        )
  ]

  act-IsRegistered :
      (a : Act) (s : Scheduler K)
      → IsRegistered s
      → (s' : Scheduler K) × (act kernel a s ≡ ok s') × IsRegistered s'
  unfolding act
  act-IsRegistered (awaits w) s v = elim (Option-cases (kernel.ctl_add w.fd w.events s.epoll)) [
    | inl e ↦ (s, rw (act, await_none w s e) refl, v)
    | inr (k, e) ↦ (
      _,
      rw (act, await_some w s k e) refl,
      await_suspend-IsRegistered w s _ v (await_some w s k e),
    )
  ]
  act-IsRegistered (destroys a) s v = destroy-IsRegistered a s v

  -- Under a kernel that does what the manual says: whatever promises come to wait and are destroyed,
  -- from a scheduler that has registered the waiting promises, no destructor throws, and at the end the
  -- kernel watches the descriptors of the promises that still wait, each once, and the count is their
  -- number. A promise that may not be added does not count.
  pub acts-IsRegistered :
      (xs : List Act) (s : Scheduler K)
      → IsRegistered s
      → (s' : Scheduler K) × (acts kernel xs s ≡ ok s') × IsRegistered s'
  unfolding acts
  acts-IsRegistered [] s v = (s, refl, v)
  acts-IsRegistered (a ∷ xs) s v =
      let (s1, first, v1) = act-IsRegistered a s v in
      let (s2, later, v2) = acts-IsRegistered xs s1 v1 in (s2, rw first later, v2)
