-- ===== src/Timer/Loop.antt =====
-- The timer thread, src/timer.cpp: its constructor, the rounds of its loop `TimerThread::Run`, and
-- its end. `Loop/Turns` is about the loop over the heap, `Loop/Rounds` about whole rounds.
pub mod Turns
pub mod Adding
pub mod Pull
pub mod Rounds
pub mod End
mod Examples
use p_base.Base.{
  ℕ, zero, suc, ◌%◌, Bool, true, false, ltb, ◌==◌, if◌then◌else◌, List, [], ◌∷◌, ◌++◌, length,
  Option, none, some, add32, ◌>>=◌,
}
use p_base.Time.{Timespec}
use p_base.Timer.{
  Timer, TimerBucket, reset, empty_bucket, max_timestamp, try_delete, run_begin, sleep_time,
  add_timer,
}
use p_base.Timer.Heap.{HeapLibrary}

-- `pop_back`
unfoldable pub pop_back : List Timer → List Timer
pop_back [] = []
pop_back (t ∷ []) = []
pop_back (t ∷ u ∷ ts) = t ∷ pop_back (u ∷ ts)

-- What the thread does with a timer: it runs it, or it only gives it back to the pool.
pub data Event : Type 0 where
  ran : Timer → Event
  released : Timer → Event

-- What the thread reads in one turn of the loop over the heap: the versions of the timers, by
-- their names, at the check, the clock, and the versions at the exchange. Other threads cancel
-- timers at any time.
pub record Turn : Type 0 where
  pub checked : ℕ → ℕ
  pub now : ℕ
  pub exchanged : ℕ → ℕ

abbrev pub with_version : (ℕ → ℕ) → Timer → Timer
with_version versions t = record t { version = versions t.timer_id }

-- `run_and_delete`; `none` where its assertion fails, which ends the program. An exchange that fails
-- stores the version that it read in its argument, which the assertion behind it adds 2 to.
unfoldable pub run_and_delete : (ℕ → ℕ) → Timer → Option Event
unfolding run_begin
run_and_delete versions t =
    let (ok, t') = run_begin (with_version versions t) in
    if ok
    then some (ran t)
    else (if t'.version == add32 (versions t.timer_id) 2 then some (released t) else none)

-- The events of a part of the round, and the heap behind it.
pub record Phase : Type 0 where
  pub events : List Event
  pub heap : List Timer

abbrev pub after_event : Event → Phase → Phase
after_event e r = record { events = e ∷ r.events; heap = r.heap }

abbrev pub then_rest : Option Event → Option Phase → Option Phase
then_rest event rest = do e ← event; r ← rest; some (after_event e r)

module _ (lib : HeapLibrary) where
  open lib use {push_heap, pop_heap}

  -- The timers of one bucket, which the thread has for itself.
  unfoldable pub pull_list : (ℕ → ℕ) → List Timer → List Timer → Phase
  unfolding try_delete
  pull_list versions [] heap = record { events = []; heap = heap }
  pull_list versions (t ∷ ts) heap =
      let dropped = after_event (released t) (pull_list versions ts heap) in
      let kept = pull_list versions ts (push_heap (heap ++ t ∷ [])) in
      if try_delete (with_version versions t) then dropped else kept

  -- The timers of all buckets.
  unfoldable pub pull : (ℕ → ℕ) → List TimerBucket → List Timer → Phase
  unfolding reset pull_list
  pull versions [] heap = record { events = []; heap = heap }
  pull versions (b ∷ bs) heap =
      let one = pull_list versions (reset b).0 heap in
      let rest = pull versions bs one.heap in
      record { events = one.events ++ rest.events; heap = rest.heap }

  -- The loop over the heap, on fuel, from its turn `k`; `none` where an assertion fails.
  unfoldable pub run_heap : ℕ → (ℕ → Turn) → ℕ → List Timer → Option Phase
  unfolding pop_back try_delete run_and_delete
  run_heap zero turns k heap = some (record { events = []; heap = heap })
  run_heap (suc fuel) turns k [] = some (record { events = []; heap = [] })
  run_heap (suc fuel) turns k (t ∷ ts) =
      let rest = run_heap fuel turns (suc k) (pop_back (pop_heap (t ∷ ts))) in
      let dropped = then_rest (some (released t)) rest in
      let done = then_rest (run_and_delete (turns k).exchanged t) rest in
      if try_delete (with_version (turns k).checked t)
      then dropped
      else (if ltb (turns k).now t.run_time
          then some (record { events = []; heap = t ∷ ts })
          else done)

-- The buckets, the earliest time and the number of wake-ups, which all threads share.
pub record Shared : Type 0 where
  pub buckets : List TimerBucket
  pub min_timestamp : ℕ
  pub signal_pending : ℕ

-- `add_timer` at the bucket with the index `i`.
unfoldable pub add_in : ℕ → Timer → List TimerBucket → ℕ → ℕ → Shared
unfolding add_timer
add_in i t [] time signal = record { buckets = []; min_timestamp = time; signal_pending = signal }
add_in zero t (b ∷ bs) time signal =
    let s = add_timer t (record { bucket = b; min_timestamp = time; signal_pending = signal }) in
    record {
      buckets = s.bucket ∷ bs;
      min_timestamp = s.min_timestamp;
      signal_pending = s.signal_pending;
    }
add_in (suc i) t (b ∷ bs) time signal =
    let s = add_in i t bs time signal in record s { buckets = b ∷ s.buckets }

-- Calls of `add_timer`, each with the number of its thread.
unfoldable pub add_all : List (ℕ × Timer) → Shared → Shared
unfolding add_in
add_all [] s = s
add_all ((thread_id, t) ∷ calls) s =
    add_all calls
      (add_in (thread_id % length s.buckets) t s.buckets s.min_timestamp s.signal_pending)

unfoldable pub reset_all : List TimerBucket → List TimerBucket
unfolding reset
reset_all [] = []
reset_all (b ∷ bs) = (reset b).1 ∷ reset_all bs

abbrev pub first_of : List Timer → Option Timer
first_of [] = none
first_of (t ∷ ts) = some t

-- The state of the thread between two rounds.
pub record Thread : Type 0 where
  pub heap : List Timer
  pub shared : Shared

-- What a round meets: the calls of `add_timer` before the pull, the versions in the pull, the
-- turns of the loop, the calls of `add_timer` after the pull, and the time before the wait.
pub record Inputs : Type 0 where
  pub before : List (ℕ × Timer)
  pub versions : ℕ → ℕ
  pub turns : ℕ → Turn
  pub after : List (ℕ × Timer)
  pub now : ℕ

pub record Round : Type 0 where
  pub events : List Event
  pub thread : Thread
  pub sleep : Option Timespec

-- `TimerThread`: with no bucket asked for it has one.
unfoldable pub empty_buckets : ℕ → List TimerBucket
empty_buckets zero = []
empty_buckets (suc n) = empty_bucket ∷ empty_buckets n

unfoldable pub new_thread : ℕ → Thread
unfolding empty_buckets
new_thread bucket_number = record {
  heap = [];
  shared = record {
    buckets = empty_buckets (if bucket_number == 0 then 1 else bucket_number);
    min_timestamp = max_timestamp;
    signal_pending = 0;
  };
}

-- The end of `Run` and the destructor: all that is left is released.
unfoldable pub release_list : List Timer → List Event
release_list [] = []
release_list (t ∷ ts) = released t ∷ release_list ts

unfoldable pub release_buckets : List TimerBucket → List Event
unfolding release_list reset
release_buckets [] = []
release_buckets (b ∷ bs) = release_list (reset b).0 ++ release_buckets bs

unfoldable pub stop_and_join : Thread → List Event
unfolding release_list release_buckets
stop_and_join s = release_list s.heap ++ release_buckets s.shared.buckets

-- What a round finds when it pulls.
unfoldable pub found : Inputs → Thread → Shared
unfolding add_all
found i s = add_all i.before (record s.shared { min_timestamp = max_timestamp })

module _ (lib : HeapLibrary) where
  unfoldable pub pulled : Inputs → Thread → Phase
  unfolding found pull
  pulled i s = pull lib i.versions (found i s).buckets s.heap

  unfoldable pub run_due : Inputs → Thread → Option Phase
  unfolding pulled run_heap
  run_due i s = run_heap lib (length (pulled i s).heap) i.turns 0 (pulled i s).heap

  -- One round of `Run`, up to its wait, if no assertion fails.
  unfoldable pub round : Inputs → Thread → Option Round
  unfolding found pulled run_due reset_all add_all sleep_time
  round i s = do
    due ← run_due i s
    let buckets = reset_all (found i s).buckets
    let shared = add_all i.after (record (found i s) { buckets = buckets })
    some (record {
      events = (pulled i s).events ++ due.events;
      thread = record { heap = due.heap; shared = shared };
      sleep = sleep_time shared.min_timestamp (first_of due.heap) i.now;
    })

  -- The rounds until `stop_` is seen, and the end; `none` where an assertion ends the program.
  unfoldable pub run_thread : List Inputs → Thread → Option (List Event)
  unfolding round stop_and_join
  run_thread [] s = some (stop_and_join s)
  run_thread (i ∷ is) s = do
    r ← round i s
    events ← run_thread is r.thread
    some (r.events ++ events)
