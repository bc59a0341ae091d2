-- ===== src/Executor/Request/Timeout.antt =====
-- The bounds of the timeout, and the requests for which its computation overflows.
use op_forward.Prelude.Int.{ℤ, pos, negsuc, ◌≤ℤ◌, ◌<ℤ◌}
use op_forward.Executor.Request.{max_timeout, default_timeout, timeout_of}
use op_forward.Prelude.{ℕ, zero, suc, ◌*◌, ◌^◌, ◌≤◌, ◌<◌, ◌≡◌, refl, arith, ltb, if◌then◌else◌}

-- The most milliseconds whose nanoseconds fit int64.
abbrev pub max_exact_ms : ℕ
max_exact_ms = 9223372036854

-- Whatever the request, the timeout is at most five minutes.
pub timeout_of-le : (ms : ℤ) → timeout_of ms ≤ℤ max_timeout
unfolding timeout_of
timeout_of-le (negsuc n) = omega arith
timeout_of-le (pos zero) = omega arith
timeout_of-le (pos (suc n)) = ground arith

-- Up to 9223372036854 ms a positive request gets its own time, cut off at five minutes; zero and
-- negative requests get the default minute.
pub timeout_of_exact :
    (ms : ℕ)
    → 0 < ms
    → ms ≤ max_exact_ms
    → (timeout_of (pos ms) ≡ pos (if ltb 300000 ms then 300 * 10 ^ 9 else ms * 10 ^ 6))
      × (timeout_of (pos 0) ≡ default_timeout)
      × (timeout_of (negsuc ms) ≡ default_timeout)
unfolding timeout_of
timeout_of_exact zero h k = elim h [ ]
timeout_of_exact (suc ms) h k = (ground arith, refl, refl)

-- Above that the product overflows int64: up to twice that number of milliseconds the timeout
-- comes out negative, so a request for a very long time is given none at all.
pub timeout_of_overflow :
    (ms : ℕ) → max_exact_ms < ms → ms ≤ 2 * max_exact_ms → timeout_of (pos ms) <ℤ pos 0
unfolding timeout_of
timeout_of_overflow zero h k = elim h [ ]
timeout_of_overflow (suc ms) h k = ground arith
