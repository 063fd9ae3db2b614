-- ===== src/Timer/Loop/Pull.antt =====
-- Taking the timers out of the buckets, `TimerThread::Run` of src/timer.cpp.
use p_base.Base.{◌≢◌, ℕ, ◌+◌, ◌≡◌, arith, true, List, [], ◌∷◌, ◌++◌, Bool-cases, inl, inr, Bool}
use p_base.Timer.{Timer, TimerBucket, base_version, try_delete}
use p_base.Timer.Heap.{HeapLibrary, count, count-append}
use p_base.Timer.Loop.{ran, with_version, pull, pull_list, Event, released, Phase}
use p_base.Timer.Loop.Adding.{count_in}
use p_base.Timer.Loop.Turns.{timers_of}

-- Timers that the pull finds cancelled.
abbrev pub AreCancelled : (ℕ → ℕ) → List Event → Type 0
AreCancelled versions [] = Unit
AreCancelled versions (ran t ∷ es) = ⊥
AreCancelled versions (released t ∷ es) =
    (versions t.timer_id ≢ base_version t.timer_id) × AreCancelled versions es

AreCancelled-append :
    (versions : ℕ → ℕ) (xs ys : List Event)
    → AreCancelled versions xs
    → AreCancelled versions ys
    → AreCancelled versions (xs ++ ys)
AreCancelled-append versions [] ys h k = k
AreCancelled-append versions (ran t ∷ xs) ys h k = absurd h
AreCancelled-append versions (released t ∷ xs) ys h k =
    (h.0, AreCancelled-append versions xs ys h.1 k)

pub count-timers_of :
    (p : Timer → Bool) (xs ys : List Event)
    → count p (timers_of (xs ++ ys)) ≡ count p (timers_of xs) + count p (timers_of ys)
count-timers_of p [] ys = omega arith
count-timers_of p (e ∷ xs) ys = ground (arith, count-timers_of p xs ys)

-- The pull puts every timer that was not cancelled on the heap, and releases the others.
pub record Pulls (lib : HeapLibrary) (versions : ℕ → ℕ) (n : (Timer → Bool) → ℕ) (r : Phase)
    : Type 0 where
  pub valid : lib.IsHeap r.heap
  pub kept : (p : Timer → Bool) → count p (timers_of r.events) + count p r.heap ≡ n p
  pub dropped : AreCancelled versions r.events

module _ (versions : ℕ → ℕ) where
  cancelled_at :
      (t : Timer)
      → try_delete (with_version versions t) ≡ true
      → versions t.timer_id ≢ base_version t.timer_id
  unfolding try_delete
  cancelled_at t e = λ q. ground (arith, q)

module _ (lib : HeapLibrary) (versions : ℕ → ℕ) where
  pull_list-Pulls :
      (ts heap : List Timer)
      → lib.IsHeap heap
      → Pulls lib versions (λ p. count p ts + count p heap) (pull_list lib versions ts heap)
  unfolding pull_list
  pull_list-Pulls [] heap h = record { valid = h; kept = λ p. omega arith; dropped = tt }
  pull_list-Pulls (t ∷ ts) heap h = elim (Bool-cases (try_delete (with_version versions t))) [
    | inl gone ↦
        let rest = pull_list-Pulls ts heap h in
        rw gone (record {
          valid = rest.valid;
          kept = λ p. ground (arith, rest.kept p);
          dropped = (cancelled_at versions t gone, rest.dropped);
        })
    | inr there ↦
        let rest = pull_list-Pulls ts (lib.push_heap (heap ++ t ∷ [])) (lib.pushed t heap h) in
        rw there (record {
          valid = rest.valid;
          kept = λ p.
              ground (
                arith,
                rest.kept p,
                lib.push_same p (heap ++ t ∷ []),
                count-append p heap (t ∷ []),
              );
          dropped = rest.dropped;
        })
  ]

  pub pull-Pulls :
      (bs : List TimerBucket) (heap : List Timer)
      → lib.IsHeap heap
      → Pulls lib versions (λ p. count_in p bs + count p heap) (pull lib versions bs heap)
  unfolding pull
  pull-Pulls [] heap h = record { valid = h; kept = λ p. omega arith; dropped = tt }
  pull-Pulls (b ∷ bs) heap h =
      let list = pull_list-Pulls b.timers heap h in
      let rest = pull-Pulls bs (pull_list lib versions b.timers heap).heap list.valid in
      record {
        valid = rest.valid;
        kept = λ p. omega (
          arith,
          list.kept p,
          rest.kept p,
          count-timers_of p (pull_list lib versions b.timers heap).events
              (pull lib versions bs (pull_list lib versions b.timers heap).heap).events,
        );
        dropped = AreCancelled-append versions _ _ list.dropped rest.dropped;
      }
