-- ===== src/Io/Epoll/Timeout.antt =====
-- The timeout of `EpollScheduler::run`, of lib/include/epoll.hpp.
use coroutine_http_server.Prelude.{
  ℕ, true, false, ◌+◌, ◌-◌, ◌*◌, ◌/◌, ◌%◌, ◌^◌, ◌≤◌, ◌<◌, some, ◌≡◌, refl, ltb, lt→ltb, arith,
}
use coroutine_http_server.Prelude.Decimal.{pos, negsuc}
use coroutine_http_server.Io.Epoll.{timeout_of, ms}

-- Below 2^31 milliseconds the timeout is the duration in whole milliseconds, rounded down: the wait is
-- never longer than the duration, and shorter by less than a millisecond. From there to 2^32
-- milliseconds the timeout is negative, for which `epoll_wait` waits without a limit.
pub timeout_of-bounds :
    (d : ℕ)
    → (d < 2147483648 * ms
        → (t : ℕ) × (timeout_of (some d) ≡ pos t) × (t * ms ≤ d) × (d < (t + 1) * ms))
      × (2147483648 * ms ≤ d → d < 4294967296 * ms → (n : ℕ) × (timeout_of (some d) ≡ negsuc n))
unfolding timeout_of
timeout_of-bounds d = (
  λ small.
      let same : (d / ms) % 2 ^ 32 ≡ d / ms = omega arith in
      let fits : ltb (d / ms) 2147483648 ≡ true = lt→ltb (d / ms) 2147483648 (omega arith) in
      (d / ms, rw (same, fits) refl, omega arith, omega arith),
  λ large below.
      let same : (d / ms) % 2 ^ 32 ≡ d / ms = omega arith in
      let over : 2147483648 ≤ d / ms = omega arith in
      let wraps : ltb (d / ms) 2147483648 ≡ false = ground arith in
      (2 ^ 32 - 1 - d / ms, rw (same, wraps) refl),
)
