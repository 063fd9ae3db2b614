-- ===== src/Timer/Loop/Rounds.antt =====
-- Whole rounds of the timer thread, src/timer.cpp: no timer is lost and none is overslept.
use p_base.Base.{ℕ, ◌+◌, ◌≤◌, ◌≡◌, refl, List, [], ◌∷◌, ◌++◌, length, Bool, some}
use p_base.Timer.{Timer, TimerBucket, max_timestamp, wake_time, sleep_time, empty_bucket}
use p_base.Timer.Buckets.{earliest, IsBucket}
use p_base.Timer.Heap.{HeapLibrary, count, Later}
use p_base.Timer.Loop.{
  Shared, reset_all, first_of, Phase, Thread, Inputs, Round, found, pulled, run_due,
}
use p_base.Timer.Loop.Adding.{count_in, AreBuckets, IsShared, count_calls}
use p_base.Timer.Loop.Pull.{AreCancelled}
use p_base.Timer.Loop.Turns.{timers_of, Runs}

-- How many timers that pass a test wait on the heap or in a bucket.
abbrev pub waiting : (Timer → Bool) → Thread → ℕ
waiting p s = count p s.heap + count_in p s.shared.buckets

-- Every timer in the buckets is due at `time` or later.
abbrev pub LaterIn : ℕ → List TimerBucket → Type 0
LaterIn time [] = Unit
LaterIn time (b ∷ bs) = Later time b.timers × LaterIn time bs

pub record IsThreadState (lib : HeapLibrary) (s : Thread) : Type 0 where
  pub heap : lib.IsHeap s.heap
  pub shared : IsShared s.shared

-- What a round does: it releases what the pull finds cancelled, runs or releases what is due, loses
-- and repeats no timer, and then waits at most until the first of the timers is due. `due` is what
-- the loop over the heap does.
pub record Rounds (lib : HeapLibrary) (i : Inputs) (s : Thread) (r : Round) : Type 0 where
  pub due : Phase
  pub ended : run_due lib i s ≡ some due
  pub valid : IsThreadState lib r.thread
  pub kept :
      (p : Timer → Bool)
      → count p (timers_of r.events) + waiting p r.thread
        ≡ count_calls p i.before + count_calls p i.after + waiting p s
  pub parts : r.events ≡ (pulled lib i s).events ++ due.events
  pub dropped : AreCancelled i.versions (pulled lib i s).events
  pub runs : Runs lib i.turns 0 (pulled lib i s).heap due
  pub rest : r.thread.heap ≡ due.heap
  pub wakes_for_heap :
      Later (wake_time r.thread.shared.min_timestamp (first_of r.thread.heap)) r.thread.heap
  pub wakes_for_buckets :
      LaterIn
        (wake_time r.thread.shared.min_timestamp (first_of r.thread.heap))
        r.thread.shared.buckets
  pub sleeps : r.sleep ≡ sleep_time r.thread.shared.min_timestamp (first_of r.thread.heap) i.now

pub empty-IsBucket : IsBucket empty_bucket
unfolding earliest
empty-IsBucket = refl

-- Buckets that were taken are empty.
record AreTaken (bs after : List TimerBucket) : Type 0 where
  same_length : length after ≡ length bs
  none_left : (p : Timer → Bool) → count_in p after ≡ 0
  valid : (time : ℕ) → time ≤ max_timestamp → AreBuckets time after

-- The buckets that the thread leaves behind the pull.
taken_shared : Inputs → Thread → Shared
taken_shared i s = record (found i s) { buckets = reset_all (found i s).buckets }
