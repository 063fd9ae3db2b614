-- ===== src/Timer.antt =====
-- Timers: include/p/base/timer.h and src/timer.cpp.
-- Here are the timer, whose version tells the thread that runs it and the callers that cancel it
-- apart, the buckets that new timers wait in, and the time that the thread sleeps.
-- `Timer/Protocol` puts the atomic steps of all threads in sequence, `Timer/Loop` has the rounds of
-- the timer thread over its heap (`Timer/Heap`).
pub mod Protocol
pub mod Once
pub mod Answers
pub mod Buckets
pub mod Heap
pub mod Loop
mod Examples
use p_base.Base.{
  ℕ, ◌+◌, ◌-◌, ◌*◌, ◌/◌, ◌%◌, ◌^◌, Bool, true, false, not, Option, none, some, ltb, leb, ◌==◌,
  if◌then◌else◌, add32, add64, sub64, List, [], ◌∷◌,
}
use p_base.Time.{Timespec, timespec_to_us, us_to_timespec, mul64}

-- `func` and `arg` are what the timer runs; the list that `next` makes is a list of timers.
pub record Timer : Type 0 where
  pub run_time : ℕ
  pub timer_id : ℕ
  pub func : ℕ
  pub arg : ℕ
  pub version : ℕ

-- `timer_id >> 32`
unfoldable pub base_version : ℕ → ℕ
base_version timer_id = timer_id / 2 ^ 32 % 2 ^ 32

-- `version.compare_exchange_strong`
abbrev pub exchange_version : ℕ → ℕ → Timer → Bool × Timer
exchange_version expected desired t =
    if t.version == expected then (true, record t { version = desired }) else (false, t)

-- Whether the timer was cancelled; the timer thread gives it back to the pool then.
unfoldable pub try_delete : Timer → Bool
unfolding base_version
try_delete t = not (t.version == base_version t.timer_id)

-- `run_and_delete` up to the call of `func`, and the store behind the call.
unfoldable pub run_begin : Timer → Bool × Timer
unfolding base_version
run_begin t = exchange_version (base_version t.timer_id) (add32 (base_version t.timer_id) 1) t

unfoldable pub run_end : Timer → Timer
unfolding base_version
run_end t = record t { version = add32 (base_version t.timer_id) 2 }

-- `add_timer` up to the store of the version, and that store. `timer_id` is what the pool gives.
unfoldable pub add_begin : ℕ → ℕ → ℕ → Timespec → Timer → Timer
unfolding timespec_to_us
add_begin timer_id func arg abstime t = record t {
  timer_id = add64 timer_id (3 * 2 ^ 32);
  run_time = timespec_to_us abstime;
  func = func;
  arg = arg;
}

-- `add_timer_us` at the time `now`, up to the same store.
unfoldable pub add_us_begin : ℕ → ℕ → ℕ → ℕ → ℕ → Timer → Timer
unfolding add_begin us_to_timespec
add_us_begin timer_id func arg now delay_us t =
    add_begin timer_id func arg (us_to_timespec (add64 now delay_us)) t

unfoldable pub add_end : Timer → Timer
unfolding base_version
add_end t = record t { version = base_version t.timer_id }

-- What `cancel_timer` returns: 0, 1 and -1.
pub data Answer : Type 0 where
  cancelled : Answer
  running : Answer
  finished : Answer

-- The three reads and writes of `cancel_timer`: the check of the name, the exchange, and the look
-- at the version after an exchange that failed. Such an exchange stores the version that it read,
-- `observed`, in its argument `base_version`.
unfoldable pub cancel_check : ℕ → Timer → Bool
cancel_check timer_id t = timer_id == t.timer_id

unfoldable pub cancel_exchange : ℕ → Timer → Bool × Timer
unfolding base_version
cancel_exchange timer_id t =
    exchange_version (base_version timer_id) (add32 (base_version timer_id) 2) t

unfoldable pub cancel_answer : ℕ → Timer → Answer
cancel_answer observed t = if t.version == add32 observed 1 then running else finished

-- `cancel_timer`, where no other thread comes between.
unfoldable pub cancel_timer : ℕ → Timer → Answer × Timer
unfolding cancel_check cancel_exchange cancel_answer
cancel_timer timer_id t =
    if cancel_check timer_id t
    then (let (done, t') = cancel_exchange timer_id t in
        if done then (cancelled, t') else (cancel_answer t.version t', t'))
    else (finished, t)

-- `std::numeric_limits<int64_t>::max()`
abbrev pub max_timestamp : ℕ
max_timestamp = 2 ^ 63 - 1

pub record TimerBucket : Type 0 where
  pub timers : List Timer
  pub min_timestamp : ℕ

abbrev pub empty_bucket : TimerBucket
empty_bucket = record { timers = []; min_timestamp = max_timestamp }

unfoldable pub reset : TimerBucket → List Timer × TimerBucket
reset b = (b.timers, empty_bucket)

-- `TimerBucket::add_timer`: false where the timer is the first one to be due.
unfoldable pub add_to_bucket : Timer → TimerBucket → Bool × TimerBucket
add_to_bucket t b =
    if ltb t.run_time b.min_timestamp
    then (false, record { timers = t ∷ b.timers; min_timestamp = t.run_time })
    else (true, record { timers = t ∷ b.timers; min_timestamp = b.min_timestamp })

-- The bucket of the calling thread, the earliest time of the timer thread, and the number of
-- wake-ups that it was sent.
pub record TimerThread : Type 0 where
  pub bucket : TimerBucket
  pub min_timestamp : ℕ
  pub signal_pending : ℕ

-- `TimerThread::add_timer`, where no other thread stores an earlier time between.
unfoldable pub add_timer : Timer → TimerThread → TimerThread
unfolding add_to_bucket
add_timer t s =
    let (later, b) = add_to_bucket t s.bucket in
    if later
    then record s { bucket = b }
    else (if leb s.min_timestamp t.run_time then record s { bucket = b } else record {
      bucket = b;
      min_timestamp = t.run_time;
      signal_pending = add32 s.signal_pending 1;
    })

-- The earlier one of `min_timestamp` and of the time of the first timer of the heap.
abbrev pub wake_time : ℕ → Option Timer → ℕ
wake_time min_timestamp none = min_timestamp
wake_time min_timestamp (some t) =
    if ltb t.run_time min_timestamp then t.run_time else min_timestamp

-- How long the timer thread waits at the time `now`, if it does.
unfoldable pub sleep_time : ℕ → Option Timer → ℕ → Option Timespec
sleep_time min_timestamp first now =
    let point = wake_time min_timestamp first in
    if ltb now point
    then some (record {
      tv_sec = (point - now) / 1_000_000;
      tv_nsec = sub64 (point - now) (mul64 ((point - now) / 1_000_000) 1_000_000);
    })
    else none
