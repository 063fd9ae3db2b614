-- ===== src/Time/Examples.antt =====
-- The theorems on times at concrete times.
use p_base.Base.{◌<◌, ◌≡◌, arith}
use p_base.Time.{Timespec, timespec_to_us, timespec_to_ns, ns_to_timespec, us_to_timespec}
use p_base.Time.RoundTrip.{timespec_inverses}

abbrev moment : Timespec
moment = record { tv_sec = 3; tv_nsec = 999_999_999 }

timespec_inverses_example :
    (timespec_to_ns (ns_to_timespec 3_000_000_007) ≡ 3_000_000_007)
    × ((ns_to_timespec 3_000_000_007).tv_nsec < 1_000_000_000)
    × (timespec_to_us (us_to_timespec 3_000_007) ≡ 3_000_007)
    × (ns_to_timespec (timespec_to_ns moment) ≡ moment)
timespec_inverses_example =
    timespec_inverses 3_000_000_007 3_000_007 moment (omega arith) (omega arith) (omega arith)
      (omega arith)
