-- ===== src/Task/Timed/Order.antt =====
-- The set of the sleeping coroutines of lib/include/task.hpp, in its order.
use coroutine_http_server.Prelude.{◌≤◌, true, List, [], ◌∷◌, ◌≡◌, arith, All}
use coroutine_http_server.Task.Timed.{Timer, before, insert, erase}

-- Each timer comes before those behind it.
abbrev pub IsSorted : List Timer → Type 0
IsSorted [] = Unit
IsSorted (t ∷ ts) = All (λ u. before t u ≡ true) ts × IsSorted ts

pub before_trans : (a b c : Timer) → before a b ≡ true → before b c ≡ true → before a c ≡ true
unfolding before
before_trans a b c h k = ground arith

pub before-le : (a b : Timer) → before a b ≡ true → a.expire ≤ b.expire
unfolding before
before-le a b h = ground arith

-- A property of the new timer and of all old ones is one of all.
insert-All :
    (P : Timer → Type 0) (t : Timer) (us : List Timer) → P t → All P us → All P (insert t us)
unfolding insert
insert-All P t [] p h = (p, tt)
insert-All P t (u ∷ us) p h = ground (arith, insert-All P t us p h.1)

All-trans :
    (t u : Timer) (us : List Timer)
    → before t u ≡ true
    → All (λ v. before u v ≡ true) us
    → All (λ v. before t v ≡ true) us
All-trans t u [] b h = tt
All-trans t u (v ∷ us) b h = (before_trans t u v b h.0, All-trans t u us b h.1)

pub insert-IsSorted : (t : Timer) (us : List Timer) → IsSorted us → IsSorted (insert t us)
unfolding insert
insert-IsSorted t [] h = (tt, tt)
insert-IsSorted t (u ∷ us) h =
    ground
      (arith, insert-IsSorted t us h.1, All-trans t u us, insert-All (λ v. before u v ≡ true) t us)

erase-All : (P : Timer → Type 0) (t : Timer) (us : List Timer) → All P us → All P (erase t us)
unfolding erase
erase-All P t [] h = tt
erase-All P t (u ∷ us) h = ground (arith, erase-All P t us h.1)

pub erase-IsSorted : (t : Timer) (us : List Timer) → IsSorted us → IsSorted (erase t us)
unfolding erase
erase-IsSorted t [] h = tt
erase-IsSorted t (u ∷ us) h =
    ground (arith, erase-IsSorted t us h.1, erase-All (λ v. before u v ≡ true) t us h.0)
