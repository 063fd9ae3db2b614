-- ===== src/Timer/Loop/Examples.antt =====
-- The rounds of the timer thread on concrete timers, with a sorted list for the heap.
use p_base.Base.{
  ◌^◌, ◌*◌, ℕ, ◌+◌, ◌≤◌, ◌≡◌, refl, arith, Bool, leb, ◌==◌, if◌then◌else◌, List, [], ◌∷◌, ◌++◌,
  Bool-cases, inl, inr, Option, none, some,
}
use p_base.Timer.{Timer, max_timestamp, empty_bucket, base_version, run_begin}
use p_base.Timer.Heap.{HeapLibrary, count, Later, IsInOrder, Later-le}
use p_base.Timer.Loop.{Turn, Thread, Inputs, Round, Event, ran, released, run_and_delete, round}
use p_base.Timer.Loop.Rounds.{Rounds}

insert : Timer → List Timer → List Timer
insert t [] = t ∷ []
insert t (u ∷ us) =
    let rest = insert t us in if leb t.run_time u.run_time then t ∷ u ∷ us else u ∷ rest

sort : List Timer → List Timer
unfolding insert
sort [] = []
sort (t ∷ ts) = insert t (sort ts)

rotate : List Timer → List Timer
rotate [] = []
rotate (t ∷ ts) = ts ++ t ∷ []

Later-insert :
    (time : ℕ) (t : Timer) (us : List Timer)
    → time ≤ t.run_time
    → Later time us
    → Later time (insert t us)
unfolding insert
Later-insert time t [] h l = (h, tt)
Later-insert time t (u ∷ us) h l = elim (Bool-cases (leb t.run_time u.run_time)) [
  | inl e ↦ rw e (h, l)
  | inr e ↦ rw e (l.0, Later-insert time t us h l.1)
]

insert-IsInOrder : (t : Timer) (us : List Timer) → IsInOrder us → IsInOrder (insert t us)
unfolding insert
insert-IsInOrder t [] h = (tt, tt)
insert-IsInOrder t (u ∷ us) h = elim (Bool-cases (leb t.run_time u.run_time)) [
  | inl e ↦ rw e ((ground arith, Later-le _ u.run_time us (ground arith) h.0), h)
  | inr e ↦ rw e (Later-insert u.run_time t us (ground arith) h.0, insert-IsInOrder t us h.1)
]

sort-IsInOrder : (ts : List Timer) → IsInOrder (sort ts)
unfolding sort
sort-IsInOrder [] = tt
sort-IsInOrder (t ∷ ts) = insert-IsInOrder t (sort ts) (sort-IsInOrder ts)

count-insert :
    (p : Timer → Bool) (t : Timer) (us : List Timer) → count p (insert t us) ≡ count p (t ∷ us)
unfolding insert
count-insert p t [] = refl
count-insert p t (u ∷ us) = ground (arith, count-insert p t us)

count-sort : (p : Timer → Bool) (ts : List Timer) → count p (sort ts) ≡ count p ts
unfolding sort
count-sort p [] = refl
count-sort p (t ∷ ts) = ground (arith, count-insert p t (sort ts), count-sort p ts)

sorted_library : HeapLibrary
unfolding rotate
sorted_library = record {
  IsHeap = IsInOrder;
  push_heap = sort;
  pop_heap = rotate;
  empty = tt;
  first = λ t ts h. h.0;
  pushed = λ t ts h. sort-IsInOrder (ts ++ t ∷ []);
  push_same = count-sort;
  popped = λ t ts h. (ts, refl, h.1, λ p. refl);
}

abbrev timer_at : ℕ → ℕ → Timer
timer_at time slot = record {
  run_time = time;
  timer_id = slot + 3 * 2 ^ 32;
  func = 5;
  arg = 6;
  version = 3;
}

abbrev versions : ℕ → ℕ
versions id = if id == 9 + 3 * 2 ^ 32 then 5 else 3

abbrev turns : ℕ → Turn
turns k = record { checked = versions; now = 1_000 + k; exchanged = versions }

-- Four timers, one of them cancelled and one not yet due, and one that is added after the pull.
abbrev inputs : Inputs
inputs = record {
  before =
      (0, timer_at 900 7) ∷ (5, timer_at 800 8) ∷ (1, timer_at 700 9) ∷ (1, timer_at 2_000 6) ∷ [];
  versions = versions;
  turns = turns;
  after = (3, timer_at 1_500 4) ∷ [];
  now = 1_005;
}

abbrev new : Thread
new = record {
  heap = [];
  shared = record {
    buckets = empty_bucket ∷ empty_bucket ∷ [];
    min_timestamp = max_timestamp;
    signal_pending = 0;
  };
}

abbrev events_of : Option Round → List Event
events_of none = []
events_of (some r) = r.events

round_events :
    events_of (round sorted_library inputs new)
    ≡ released (timer_at 700 9) ∷ ran (timer_at 800 8) ∷ ran (timer_at 900 7) ∷ []
unfolding round sorted_library insert sort rotate run_begin base_version
round_events = refl

-- A timer that is cancelled between the check and the exchange ends the program.
late_cancel : run_and_delete (λ _. 5) (timer_at 700 9) ≡ none
unfolding run_and_delete run_begin base_version
late_cancel = refl
