-- ===== src/Timer/Loop/Adding.antt =====
-- Calls of `add_timer` at the buckets of all threads, src/timer.cpp.
use p_base.Base.{
  ℕ, zero, suc, ◌+◌, ◌%◌, ◌≤◌, ◌<◌, ◌≡◌, refl, ◌∙◌, arith, ltb, if◌then◌else◌, List, [], ◌∷◌,
  length, Bool-cases, inl, inr, Bool, leb,
}
use native.Mathlib.Nat.{mod-lt}
use p_base.Timer.{Timer, TimerThread, TimerBucket, add_timer}
use p_base.Timer.Buckets.{IsBucket, add_timer-Adds}
use p_base.Timer.Heap.{count}
use p_base.Timer.Loop.{Shared, add_in, add_all}

-- How many timers in buckets pass a test.
abbrev pub count_in : (Timer → Bool) → List TimerBucket → ℕ
count_in p [] = 0
count_in p (b ∷ bs) = count p b.timers + count_in p bs

abbrev pub one : (Timer → Bool) → Timer → ℕ
one p t = if p t then 1 else 0

-- Each bucket knows its earliest time, and the thread is to wake no later.
abbrev pub AreBuckets : ℕ → List TimerBucket → Type 0
AreBuckets time [] = Unit
AreBuckets time (b ∷ bs) = IsBucket b × (time ≤ b.min_timestamp) × AreBuckets time bs

pub record IsShared (s : Shared) : Type 0 where
  pub some_bucket : 0 < length s.buckets
  pub buckets : AreBuckets s.min_timestamp s.buckets

AreBuckets-le : (a b : ℕ) (bs : List TimerBucket) → a ≤ b → AreBuckets b bs → AreBuckets a bs
AreBuckets-le a b [] h v = tt
AreBuckets-le a b (x ∷ bs) h v = (v.0, omega (arith, v.1), AreBuckets-le a b bs h v.2)

-- One more timer in the buckets.
record AddsIn (t : Timer) (bs : List TimerBucket) (time : ℕ) (s : Shared) : Type 0 where
  same_length : length s.buckets ≡ length bs
  kept : (p : Timer → Bool) → count_in p s.buckets ≡ one p t + count_in p bs
  wakes : s.min_timestamp ≤ time

add_timer-kept :
    (t : Timer) (s : TimerThread)
    → ((add_timer t s).bucket.timers ≡ t ∷ s.bucket.timers)
      × ((add_timer t s).min_timestamp ≤ s.min_timestamp)
unfolding add_timer
add_timer-kept t s = elim (Bool-cases (ltb t.run_time s.bucket.min_timestamp)) [
  | inr later ↦ rw later (refl, omega arith)
  | inl first ↦ elim (Bool-cases (leb s.min_timestamp t.run_time)) [
    | inl awake ↦ rw (first, awake) (refl, omega arith)
    | inr asleep ↦ rw (first, asleep) (refl, ground arith)
  ]
]

add_in-AddsIn :
    (i : ℕ) (t : Timer) (bs : List TimerBucket) (time signal : ℕ)
    → i < length bs
    → AddsIn t bs time (add_in i t bs time signal)
unfolding add_in
add_in-AddsIn i t [] time signal h = absurd (omega arith)
add_in-AddsIn zero t (b ∷ bs) time signal h =
    let (timers, wakes) =
      add_timer-kept t (record { bucket = b; min_timestamp = time; signal_pending = signal }) in
    record { same_length = refl; kept = λ p. rw timers (ground arith); wakes = wakes }
add_in-AddsIn (suc i) t (b ∷ bs) time signal h =
    let rest = add_in-AddsIn i t bs time signal (omega arith) in
    record {
      same_length = omega (arith, rest.same_length);
      kept = λ p. omega (arith, rest.kept p);
      wakes = rest.wakes;
    }

add_in-AreBuckets :
    (i : ℕ) (t : Timer) (bs : List TimerBucket) (time signal : ℕ)
    → i < length bs
    → AreBuckets time bs
    → AreBuckets (add_in i t bs time signal).min_timestamp (add_in i t bs time signal).buckets
unfolding add_in
add_in-AreBuckets i t [] time signal h v = absurd (omega arith)
add_in-AreBuckets zero t (b ∷ bs) time signal h v =
    let adds =
      add_timer-Adds t (record { bucket = b; min_timestamp = time; signal_pending = signal })
        (record { bucket = v.0; awake = v.1 }) in
    (adds.valid.bucket, adds.valid.awake, AreBuckets-le _ time bs (omega (arith, adds.wakes)) v.2)
add_in-AreBuckets (suc i) t (b ∷ bs) time signal h v =
    let rest = add_in-AddsIn i t bs time signal (omega arith) in
    (v.0, omega (arith, rest.wakes, v.1), add_in-AreBuckets i t bs time signal (omega arith) v.2)

abbrev pub count_calls : (Timer → Bool) → List (ℕ × Timer) → ℕ
count_calls p [] = 0
count_calls p ((thread_id, t) ∷ calls) = one p t + count_calls p calls

-- Calls of `add_timer` by any threads.
pub record AddsAll (calls : List (ℕ × Timer)) (s after : Shared) : Type 0 where
  pub same_length : length after.buckets ≡ length s.buckets
  pub kept :
      (p : Timer → Bool) → count_in p after.buckets ≡ count_calls p calls + count_in p s.buckets
  pub wakes : after.min_timestamp ≤ s.min_timestamp

pub add_all-AddsAll :
    (calls : List (ℕ × Timer)) (s : Shared)
    → 0 < length s.buckets
    → AddsAll calls s (add_all calls s)
unfolding add_all
add_all-AddsAll [] s h = record { same_length = refl; kept = λ p. omega arith; wakes = omega arith }
add_all-AddsAll ((thread_id, t) ∷ calls) s h =
    let i = thread_id % length s.buckets in
    let s' = add_in i t s.buckets s.min_timestamp s.signal_pending in
    let first = add_in-AddsIn i t s.buckets s.min_timestamp s.signal_pending (mod-lt thread_id h) in
    let rest = add_all-AddsAll calls s' (omega (arith, first.same_length)) in
    record {
      same_length = rest.same_length ∙ first.same_length;
      kept = λ p. omega (arith, rest.kept p, first.kept p);
      wakes = omega (arith, rest.wakes, first.wakes);
    }

pub add_all-IsShared :
    (calls : List (ℕ × Timer)) (s : Shared) → IsShared s → IsShared (add_all calls s)
unfolding add_all
add_all-IsShared [] s v = v
add_all-IsShared ((thread_id, t) ∷ calls) s v =
    let i = thread_id % length s.buckets in
    let time = s.min_timestamp in
    let below = mod-lt thread_id v.some_bucket in
    let first = add_in-AddsIn i t s.buckets time s.signal_pending below in
    add_all-IsShared calls (add_in i t s.buckets time s.signal_pending) (record {
      some_bucket = omega (arith, first.same_length, v.some_bucket);
      buckets = add_in-AreBuckets i t s.buckets time s.signal_pending below v.buckets;
    })
