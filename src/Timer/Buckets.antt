-- ===== src/Timer/Buckets.antt =====
-- Adding a timer to its bucket, and the sleep of the timer thread.
use p_base.Base.{
  ℕ, ◌+◌, ◌-◌, ◌*◌, ◌/◌, ◌%◌, ◌^◌, ◌≤◌, ◌<◌, ◌≡◌, refl, arith, ltb, leb, inl, inr, Bool-cases, some,
  Option, List, [], ◌∷◌, min, add32, if◌then◌else◌,
}
use p_base.Time.{Timespec, timespec_to_us, us_to_timespec, ns_to_timespec}
use p_base.Timer.{
  add_begin, add_us_begin, Timer, TimerBucket, TimerThread, max_timestamp, add_to_bucket, add_timer,
  wake_time, sleep_time,
}

-- The time of the first timer to be due, `max_timestamp` if there is none before.
unfoldable pub earliest : List Timer → ℕ
earliest [] = max_timestamp
earliest (t ∷ ts) = min t.run_time (earliest ts)

abbrev pub IsBucket : TimerBucket → Type 0
IsBucket b = b.min_timestamp ≡ earliest b.timers

-- The timer thread wakes no later than the timers of the bucket are due.
pub record IsThread (s : TimerThread) : Type 0 where
  pub bucket : IsBucket s.bucket
  pub awake : s.min_timestamp ≤ s.bucket.min_timestamp

-- A timer was added: it is in front in the bucket, the thread is to wake for it or before, and a
-- wake-up is sent exactly if that is earlier than before.
pub record Adds (t : Timer) (s after : TimerThread) : Type 0 where
  pub valid : IsThread after
  pub timers : after.bucket.timers ≡ t ∷ s.bucket.timers
  pub wakes : after.min_timestamp ≡ min s.min_timestamp t.run_time
  pub signal :
      after.signal_pending
      ≡ (if ltb t.run_time s.min_timestamp then add32 s.signal_pending 1 else s.signal_pending)

-- Where the thread's time is no later than that of the bucket, adding a timer puts it into the bucket,
-- keeps both times right, and wakes the thread exactly if the timer is due before the thread's time.
-- That time is the earliest that was stored since the thread's last round; it leaves out the heap.
pub add_timer-Adds : (t : Timer) (s : TimerThread) → IsThread s → Adds t s (add_timer t s)
unfolding add_timer add_to_bucket earliest
add_timer-Adds t s v = elim (Bool-cases (ltb t.run_time s.bucket.min_timestamp)) [
  | inr later ↦ rw later (record {
    valid = record { bucket = ground (arith, v.bucket); awake = ground (arith, v.awake) };
    timers = refl;
    wakes = ground (arith, v.awake);
    signal = ground (arith, v.awake);
  })
  | inl first ↦ elim (Bool-cases (leb s.min_timestamp t.run_time)) [
    | inl awake ↦
        rw (first, awake)
          (record {
            valid = record { bucket = ground (arith, v.bucket); awake = ground (arith, v.awake) };
            timers = refl;
            wakes = ground (arith, v.awake);
            signal = ground (arith, v.awake);
          })
    | inr asleep ↦
        rw (first, asleep)
          (record {
            valid = record { bucket = ground (arith, v.bucket); awake = ground (arith, v.awake) };
            timers = refl;
            wakes = ground (arith, v.awake);
            signal = ground (arith, v.awake);
          })
  ]
]

-- The sleep is the whole seconds up to the time to wake, and of the rest only the thousandth
-- part: the microseconds are taken for nanoseconds. So the thread never sleeps too long.
pub timespec_to_us-sleep_time :
    (min_timestamp now : ℕ) (first : Option Timer) (sleep : Timespec)
    → wake_time min_timestamp first < 2 ^ 64
    → sleep_time min_timestamp first now ≡ some sleep
    → (timespec_to_us sleep
        ≡ (wake_time min_timestamp first - now) / 1_000_000 * 1_000_000
          + (wake_time min_timestamp first - now) % 1_000_000 / 1_000)
      × (timespec_to_us sleep ≤ wake_time min_timestamp first - now)
unfolding timespec_to_us sleep_time
timespec_to_us-sleep_time min_timestamp now first sleep h e = ground (arith, e)

-- A timer that is added for `delay_us` from now is due then.
pub run_time-add_us_begin :
    (timer_id func arg now delay_us : ℕ) (t : Timer)
    → (now + delay_us) * 1_000 < 2 ^ 64
    → (add_us_begin timer_id func arg now delay_us t).run_time ≡ now + delay_us
unfolding add_us_begin add_begin timespec_to_us us_to_timespec ns_to_timespec
run_time-add_us_begin timer_id func arg now delay_us t h = omega arith
