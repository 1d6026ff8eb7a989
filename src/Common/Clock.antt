-- ===== src/Common/Clock.antt =====
-- src/common/clock.h: `std::chrono::steady_clock` and its time points, in nanoseconds since the
-- clock's epoch. The clock does not run backwards, so a time point is a natural number; the 64-bit
-- counter of nanoseconds overflows after 292 years and is left unbounded.
use ips_with_ai.Prelude.{ℕ, ◌+◌, ◌*◌, Bool, leb}

abbrev pub TimePoint : Type 0
TimePoint = ℕ

-- `std::chrono::seconds(n)` in nanoseconds.
abbrev pub seconds : ℕ → ℕ
seconds n = n * 1000000000

-- `now - start >= std::chrono::seconds(n)`. The difference is signed in the source: it is negative,
-- and the test fails, where `now` is before `start`.
abbrev pub elapsed : TimePoint → TimePoint → ℕ → Bool
elapsed now start n = leb (start + seconds n) now
