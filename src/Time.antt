-- ===== src/Time.antt =====
-- include/p/base/time.h: a `timespec` and counts of microseconds and nanoseconds, as `uint64_t`.
-- Times before 1970 are left out: both fields of a `timespec` are numbers.
pub mod RoundTrip
mod Examples
use p_base.Base.{ℕ, ◌+◌, ◌*◌, ◌/◌, ◌%◌, ◌^◌, add64, sub64}

pub record Timespec : Type 0 where
  pub tv_sec : ℕ
  pub tv_nsec : ℕ

abbrev pub mul64 : ℕ → ℕ → ℕ
mul64 a b = a * b % 2 ^ 64

unfoldable pub timespec_to_us : Timespec → ℕ
timespec_to_us tp = add64 (mul64 tp.tv_sec 1_000_000) (tp.tv_nsec / 1_000)

unfoldable pub timespec_to_ns : Timespec → ℕ
timespec_to_ns tp = add64 (mul64 tp.tv_sec 1_000_000_000) tp.tv_nsec

unfoldable pub ns_to_timespec : ℕ → Timespec
ns_to_timespec ts = record {
  tv_sec = ts / 1_000_000_000;
  tv_nsec = sub64 ts (mul64 1_000_000_000 (ts / 1_000_000_000));
}

unfoldable pub us_to_timespec : ℕ → Timespec
unfolding ns_to_timespec
us_to_timespec ts = ns_to_timespec (mul64 ts 1_000)
