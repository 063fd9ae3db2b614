-- ===== src/Timer/Examples.antt =====
-- The theorems on timers at concrete timers and orders of steps.
use p_base.Base.{
  ℕ, ◌+◌, ◌-◌, ◌*◌, ◌/◌, ◌%◌, ◌^◌, ◌≤◌, ◌<◌, ◌≡◌, refl, arith, true, false, some, List, [], ◌∷◌,
}
use p_base.Time.{Timespec, timespec_to_us}
use p_base.Timer.{
  Timer, TimerThread, finished, max_timestamp, empty_bucket, base_version, cancel_answer, add_timer,
  wake_time, sleep_time, try_delete, run_begin, run_end, add_begin, add_end, cancel_check,
  cancel_exchange,
}
use p_base.Timer.Protocol.{
  running_func, aborted, State, Action, add_first, add_last, remove, start, check, exchange,
  call_at, run, unused, all_prompt, step_at, begin_add, begin_run, try_remove, try_check,
  try_exchange, exchange_call,
}
use p_base.Timer.Once.{starts-cancels}
use p_base.Timer.Answers.{cancel_answer-running_func}
use p_base.Timer.Buckets.{earliest, IsThread, Adds, add_timer-Adds, timespec_to_us-sleep_time}

abbrev blank : Timer
blank = record { run_time = 0; timer_id = 1_048_576; func = 0; arg = 0; version = 77 }

abbrev soon : Timespec
soon = record { tv_sec = 1; tv_nsec = 0 }

-- The name that the first use of the timer gets.
abbrev first_name : ℕ
first_name = 1_048_576 + 3 * 2 ^ 32

-- The timer is added and cancelled, added again and run, while a call to cancel it fails.
abbrev twice : List Action
twice =
    add_first 5 6 soon
    ∷ add_last
    ∷ check first_name
    ∷ exchange 0
    ∷ remove
    ∷ add_first 5 6 soon
    ∷ add_last
    ∷ check (first_name + 3 * 2 ^ 32)
    ∷ start
    ∷ exchange 0
    ∷ []

abbrev after_twice : State
after_twice = run twice (unused blank)

-- A timer that is cancelled when the thread calls `run_and_delete` ends the program.
late_cancel :
    (run
      (add_first 5 6 soon ∷ add_last ∷ check first_name ∷ exchange 0 ∷ start ∷ [])
      (unused blank)).place
    ≡ aborted
unfolding run step_at begin_add begin_run try_remove try_check try_exchange exchange_call add_begin
    add_end run_begin run_end try_delete cancel_check cancel_exchange base_version
late_cancel = refl

after_twice_place : (after_twice.place ≡ running_func) × (after_twice.generation ≡ 2)
unfolding run step_at begin_add begin_run try_remove try_check try_exchange exchange_call add_begin
    add_end run_begin run_end try_delete cancel_check cancel_exchange base_version
after_twice_place = (refl, refl)

twice-is_prompt : all_prompt twice (unused blank) ≡ true
unfolding all_prompt step_at begin_add begin_run try_remove try_check try_exchange exchange_call
    add_begin add_end run_begin run_end try_delete cancel_check cancel_exchange base_version
twice-is_prompt = refl

first_use-is_past : 1 < after_twice.generation
first_use-is_past = omega (arith, after_twice_place.1)

call : call_at after_twice.checked 0 ≡ some (first_name + 3 * 2 ^ 32, 2)
unfolding run step_at begin_add begin_run try_remove try_check try_exchange exchange_call add_begin
    add_end run_begin run_end try_delete cancel_check cancel_exchange base_version
call = refl

call-is_prompt : after_twice.generation < 2 + 2 ^ 30
call-is_prompt = omega (arith, after_twice_place.1)

-- The call that failed goes on once more.
abbrev on : List Action
on = exchange 0 ∷ []

abbrev later : State
later = run on after_twice

on-is_prompt : all_prompt on after_twice ≡ true
unfolding run all_prompt step_at begin_add begin_run try_remove try_check try_exchange exchange_call
    add_begin add_end run_begin run_end try_delete cancel_check cancel_exchange base_version
on-is_prompt = refl

later_place : (later.place ≡ running_func) × (later.generation ≡ after_twice.generation)
unfolding run step_at begin_add begin_run try_remove try_check try_exchange exchange_call add_begin
    add_end run_begin run_end try_delete cancel_check cancel_exchange base_version
later_place = (refl, refl)

starts-cancels_example :
    (after_twice.starts 1 + after_twice.cancels 1 ≡ 1)
    × (after_twice.starts 2 + after_twice.cancels 2 ≤ 1)
starts-cancels_example =
    starts-cancels blank twice 1 2 twice-is_prompt (omega arith) first_use-is_past (omega arith)

cancel_answer-running_func_example :
    ((cancel_exchange (first_name + 3 * 2 ^ 32) after_twice.timer).0 ≡ false)
    × (cancel_answer after_twice.timer.version later.timer ≡ finished)
cancel_answer-running_func_example =
    cancel_answer-running_func blank twice on 0 (first_name + 3 * 2 ^ 32) 2 twice-is_prompt
      on-is_prompt call call-is_prompt after_twice_place.0 later_place.0 later_place.1

abbrev added : Timer
added = add_end (add_begin 1_048_576 5 6 soon blank)

abbrev due : Timer
due = record { run_time = 1_000_000; timer_id = first_name; func = 5; arg = 6; version = 3 }

abbrev thread : TimerThread
thread = record { bucket = empty_bucket; min_timestamp = max_timestamp; signal_pending = 0 }

thread-IsThread : IsThread thread
unfolding earliest
thread-IsThread = record { bucket = refl; awake = omega arith }

add_timer-Adds_example : Adds due thread (add_timer due thread)
add_timer-Adds_example = add_timer-Adds due thread thread-IsThread

abbrev sleep : Timespec
sleep = record { tv_sec = 0; tv_nsec = 500_000 }

half_second : sleep_time max_timestamp (some due) 500_000 ≡ some sleep
unfolding sleep_time
half_second = refl

-- Half a second is slept as half a millisecond.
timespec_to_us-sleep_time_example :
    (timespec_to_us sleep
      ≡ (wake_time max_timestamp (some due) - 500_000) / 1_000_000 * 1_000_000
        + (wake_time max_timestamp (some due) - 500_000) % 1_000_000 / 1_000)
    × (timespec_to_us sleep ≤ wake_time max_timestamp (some due) - 500_000)
timespec_to_us-sleep_time_example =
    timespec_to_us-sleep_time max_timestamp 500_000 (some due) sleep (omega arith) half_second
