-- ===== src/Timer/Loop/Turns.antt =====
-- The loop over the heap of `TimerThread::Run`, src/timer.cpp.
use p_base.Base.{
  ℕ, zero, suc, ◌+◌, ◌≤◌, ◌<◌, ◌≡◌, ◌≢◌, refl, ◌∙◌, subst, arith, true, false, ltb, if◌then◌else◌,
  List, [], ◌∷◌, ◌++◌, length, Bool-cases, inl, inr, ap, Bool, Option, some,
}
use p_base.Timer.{Timer, try_delete, run_begin, base_version}
use p_base.Timer.Heap.{
  HeapLibrary, count, Later, IsInOrder, count_all, Later-count, count-Later, Later-le, is_before,
}
use p_base.Timer.Loop.{
  pop_back, Event, ran, released, Turn, run_and_delete, with_version, Phase, after_event, then_rest,
  run_heap,
}

abbrev pub timer_of : Event → Timer
timer_of (ran t) = t
timer_of (released t) = t

abbrev pub timers_of : List Event → List Timer
timers_of [] = []
timers_of (e ∷ es) = timer_of e ∷ timers_of es

-- A timer is run in a turn that finds it due and not cancelled, at the check and at the exchange.
-- It is only released where the check finds it cancelled.
abbrev pub IsRight : Turn → Event → Type 0
IsRight u (ran t) =
    (u.checked t.timer_id ≡ base_version t.timer_id)
    × (t.run_time ≤ u.now)
    × (u.exchanged t.timer_id ≡ base_version t.timer_id)
IsRight u (released t) = u.checked t.timer_id ≢ base_version t.timer_id

-- No timer is cancelled between the check and the exchange of a turn.
abbrev pub IsSteady : (ℕ → Turn) → Type 0
IsSteady turns =
    (k timer_id : ℕ)
    → (turns k).checked timer_id ≡ base_version timer_id
    → (turns k).exchanged timer_id ≡ base_version timer_id

abbrev pub AreRight : (ℕ → Turn) → ℕ → List Event → Type 0
AreRight turns k [] = Unit
AreRight turns k (e ∷ es) = IsRight (turns k) e × AreRight turns (suc k) es

-- The loop took every timer off the heap that was due, in the order in which they were due, and
-- no other; what it left was not due at its last look at the clock.
pub record Runs (lib : HeapLibrary) (turns : ℕ → Turn) (k : ℕ) (heap : List Timer) (r : Phase)
    : Type 0 where
  pub valid : lib.IsHeap r.heap
  pub kept : (p : Timer → Bool) → count p (timers_of r.events) + count p r.heap ≡ count p heap
  pub order : IsInOrder (timers_of r.events)
  pub right : AreRight turns k r.events
  pub waits : Later (suc (turns (k + length r.events)).now) r.heap

pop_back-append : (ts : List Timer) (t : Timer) → pop_back (ts ++ t ∷ []) ≡ ts
unfolding pop_back
pop_back-append [] t = refl
pop_back-append (u ∷ []) t = refl
pop_back-append (u ∷ v ∷ ts) t = ap (λ l. u ∷ l) (pop_back-append (v ∷ ts) t)

-- The loop ends without a failed assertion, as it should.
abbrev pub EndsRight : HeapLibrary → (ℕ → Turn) → ℕ → List Timer → Option Phase → Type 0
EndsRight lib turns k heap res = (r : Phase) × (res ≡ some r) × Runs lib turns k heap r

module _ (lib : HeapLibrary) (turns : ℕ → Turn) where
  -- One more turn, whose timer was the first of the heap.
  after_event-Runs :
      (k : ℕ) (e : Event) (ts rest : List Timer) (r : Phase)
      → Later (timer_of e).run_time ts
      → ((p : Timer → Bool) → count p rest ≡ count p ts)
      → IsRight (turns k) e
      → Runs lib turns (suc k) rest r
      → Runs lib turns k (timer_of e ∷ ts) (after_event e r)
  after_event-Runs k e ts rest r first same right runs =
      let test = is_before (timer_of e).run_time in
      record {
        valid = runs.valid;
        kept = λ p. ground (arith, runs.kept p, same p);
        order = (
          Later-count (timer_of e).run_time (timers_of r.events) (
              omega (arith, runs.kept test, same test, count-Later (timer_of e).run_time ts first)),
          runs.order,
        );
        right = (right, runs.right);
        waits =
            subst (λ (n : ℕ). Later (suc (turns n).now) r.heap)
              (let q : suc k + length r.events ≡ k + suc (length r.events) = omega arith in q)
              runs.waits;
      }

  run_and_delete-live :
      (k : ℕ) (t : Timer)
      → (turns k).exchanged t.timer_id ≡ base_version t.timer_id
      → run_and_delete (turns k).exchanged t ≡ some (ran t)
  unfolding run_and_delete run_begin
  run_and_delete-live k t e = rw e (ground arith)

  try_delete-checked :
      (k : ℕ) (t : Timer) (b : Bool)
      → try_delete (with_version (turns k).checked t) ≡ b
      → (if b
          then (turns k).checked t.timer_id ≢ base_version t.timer_id
          else (turns k).checked t.timer_id ≡ base_version t.timer_id)
  unfolding try_delete
  try_delete-checked k t true e = λ q. ground (arith, q)
  try_delete-checked k t false e = ground arith

  empty_heap : (k : ℕ) → lib.IsHeap [] → Runs lib turns k [] (record { events = []; heap = [] })
  empty_heap k h = record { valid = h; kept = λ p. refl; order = tt; right = tt; waits = tt }

  not_due :
      (k : ℕ) (t : Timer) (ts : List Timer)
      → lib.IsHeap (t ∷ ts)
      → (turns k).now < t.run_time
      → Runs lib turns k (t ∷ ts) (record { events = []; heap = t ∷ ts })
  not_due k t ts h early = record {
    valid = h;
    kept = λ p. omega arith;
    order = tt;
    right = tt;
    waits =
        let e : k ≡ k + 0 = omega arith in
        subst (λ (n : ℕ). Later (suc (turns n).now) (t ∷ ts)) (e)
          (early, Later-le _ _ ts early (lib.first t ts h));
  }

  -- One more turn in front of a loop that ends.
  then_rest-EndsRight :
      (k : ℕ) (e : Event) (ts rest : List Timer) (res : Option Phase)
      → Later (timer_of e).run_time ts
      → ((p : Timer → Bool) → count p rest ≡ count p ts)
      → IsRight (turns k) e
      → EndsRight lib turns (suc k) rest res
      → EndsRight lib turns k (timer_of e ∷ ts) (then_rest (some e) res)
  then_rest-EndsRight k e ts rest res first same right (r, ends, runs) =
      (after_event e r, rw ends refl, after_event-Runs k e ts rest r first same right runs)

  -- With fuel for the heap, the loop over it runs or releases what is due, and nothing else.
  pub run_heap-EndsRight :
      (fuel k : ℕ) (heap : List Timer)
      → IsSteady turns
      → lib.IsHeap heap
      → length heap ≤ fuel
      → EndsRight lib turns k heap (run_heap lib fuel turns k heap)
  unfolding run_heap
  run_heap-EndsRight zero k [] steady h l = (_, refl, empty_heap k h)
  run_heap-EndsRight zero k (t ∷ ts) steady h l = absurd (omega arith)
  run_heap-EndsRight (suc fuel) k [] steady h l = (_, refl, empty_heap k h)
  run_heap-EndsRight (suc fuel) k (t ∷ ts) steady h l =
      let (rest, taken, heaped, same) = lib.popped t ts h in
      let popped : pop_back (lib.pop_heap (t ∷ ts)) ≡ rest =
        ap pop_back taken ∙ pop_back-append rest t in
      let shorter : length rest ≤ fuel =
        omega (arith, same (λ _. true), count_all rest, count_all ts) in
      let first = lib.first t ts h in
      let go = run_heap-EndsRight fuel (suc k) rest steady heaped shorter in
      rw popped (elim (Bool-cases (try_delete (with_version (turns k).checked t))) [
        | inl gone ↦ rw gone (
            then_rest-EndsRight k (released t) ts rest _ first same
              (try_delete-checked k t true gone) go)
        | inr there ↦ elim (Bool-cases (ltb (turns k).now t.run_time)) [
          | inl early ↦ rw (there, early) (_, refl, not_due k t ts h (ground arith))
          | inr due ↦
              let live = try_delete-checked k t false there in
              let steadily = steady k t.timer_id live in
              rw (there, due, run_and_delete-live k t steadily)
                (then_rest-EndsRight k (ran t) ts rest _ first same (live, ground arith, steadily)
                  go)
        ]
      ])
