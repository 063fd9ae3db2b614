-- ===== src/Time/RoundTrip.antt =====
-- Times go to a `timespec` and back.
use p_base.Base.{ℕ, ◌+◌, ◌*◌, ◌^◌, ◌<◌, ◌≡◌, ap₂, arith}
use p_base.Time.{Timespec, timespec_to_us, timespec_to_ns, ns_to_timespec, us_to_timespec}

-- Every count of nanoseconds comes back from its `timespec`, whose fraction is below a second.
timespec_to_ns-ns_to_timespec :
    (ts : ℕ)
    → ts < 2 ^ 64
    → (timespec_to_ns (ns_to_timespec ts) ≡ ts) × ((ns_to_timespec ts).tv_nsec < 1_000_000_000)
unfolding timespec_to_ns ns_to_timespec
timespec_to_ns-ns_to_timespec ts h = omega arith

-- A count of microseconds comes back as long as its nanoseconds fit 64 bits.
timespec_to_us-us_to_timespec :
    (ts : ℕ) → ts * 1_000 < 2 ^ 64 → timespec_to_us (us_to_timespec ts) ≡ ts
unfolding timespec_to_us us_to_timespec ns_to_timespec
timespec_to_us-us_to_timespec ts h = omega arith

-- The other way round: a `timespec` with a fraction below a second comes back.
ns_to_timespec-timespec_to_ns :
    (tp : Timespec)
    → tp.tv_nsec < 1_000_000_000
    → tp.tv_sec * 1_000_000_000 + tp.tv_nsec < 2 ^ 64
    → ns_to_timespec (timespec_to_ns tp) ≡ tp
unfolding timespec_to_ns ns_to_timespec
ns_to_timespec-timespec_to_ns tp h k =
    ap₂ (λ x y. record { tv_sec = x; tv_nsec = y }) (omega arith) (omega arith)

-- Times go to a `timespec` and back: every count of nanoseconds of 64 bits comes back, by way of a
-- fraction below a second, every count of microseconds whose nanoseconds fit 64 bits, and every
-- `timespec` with such a fraction whose nanoseconds fit 64 bits.
pub timespec_inverses :
    (ns us : ℕ) (tp : Timespec)
    → ns < 2 ^ 64
    → us * 1_000 < 2 ^ 64
    → tp.tv_nsec < 1_000_000_000
    → tp.tv_sec * 1_000_000_000 + tp.tv_nsec < 2 ^ 64
    → (timespec_to_ns (ns_to_timespec ns) ≡ ns)
      × ((ns_to_timespec ns).tv_nsec < 1_000_000_000)
      × (timespec_to_us (us_to_timespec us) ≡ us)
      × (ns_to_timespec (timespec_to_ns tp) ≡ tp)
timespec_inverses ns us tp h k l m =
    let (a, b) = timespec_to_ns-ns_to_timespec ns h in
    (a, b, timespec_to_us-us_to_timespec us k, ns_to_timespec-timespec_to_ns tp l m)
