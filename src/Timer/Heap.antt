-- ===== src/Timer/Heap.antt =====
-- The vector of timers of src/timer.cpp that is ordered by `timer_compare`. The algorithms
-- `std::push_heap` and `std::pop_heap` are parameters, with what the library promises of them.
use p_base.Base.{
  ℕ, suc, ◌+◌, ◌≤◌, ◌≡◌, refl, arith, Bool, true, ltb, if◌then◌else◌, List, [], ◌∷◌, ◌++◌, length,
  Bool-cases, inl, inr,
}
use p_base.Timer.{Timer}

-- How many timers of a list pass a test; every timer is due at `time` or later.
abbrev pub count : (Timer → Bool) → List Timer → ℕ
count p [] = 0
count p (t ∷ ts) = let rest = count p ts in if p t then suc rest else rest

abbrev pub Later : ℕ → List Timer → Type 0
Later time [] = Unit
Later time (t ∷ ts) = (time ≤ t.run_time) × Later time ts

abbrev pub IsInOrder : List Timer → Type 0
IsInOrder [] = Unit
IsInOrder (t ∷ ts) = Later t.run_time ts × IsInOrder ts

-- The first element of such a vector is one of the first to be due. `push_heap` takes a vector
-- that is ordered up to its last element; `pop_heap` takes the first to the end.
pub record HeapLibrary : Type 1 where
  pub IsHeap : List Timer → Type 0
  pub push_heap : List Timer → List Timer
  pub pop_heap : List Timer → List Timer
  pub empty : IsHeap []
  pub first : (t : Timer) (ts : List Timer) → IsHeap (t ∷ ts) → Later t.run_time ts
  pub pushed : (t : Timer) (ts : List Timer) → IsHeap ts → IsHeap (push_heap (ts ++ t ∷ []))
  pub push_same : (p : Timer → Bool) (ts : List Timer) → count p (push_heap ts) ≡ count p ts
  pub popped :
      (t : Timer) (ts : List Timer)
      → IsHeap (t ∷ ts)
      → (rest : List Timer) × (pop_heap (t ∷ ts) ≡ rest ++ t ∷ [])
        × IsHeap rest
        × ((p : Timer → Bool) → count p rest ≡ count p ts)

pub count-append :
    (p : Timer → Bool) (xs ys : List Timer) → count p (xs ++ ys) ≡ count p xs + count p ys
count-append p [] ys = omega arith
count-append p (x ∷ xs) ys = elim (Bool-cases (p x)) [
  | inl e ↦ rw e (omega (arith, count-append p xs ys))
  | inr e ↦ rw e (count-append p xs ys)
]

pub count_all : (ts : List Timer) → count (λ _. true) ts ≡ length ts
count_all [] = refl
count_all (t ∷ ts) = omega (arith, count_all ts)

abbrev pub is_before : ℕ → Timer → Bool
is_before time t = ltb t.run_time time

pub Later-count : (time : ℕ) (ts : List Timer) → count (is_before time) ts ≡ 0 → Later time ts
Later-count time [] e = tt
Later-count time (t ∷ ts) e = elim (Bool-cases (ltb t.run_time time)) [
  | inl b ↦ absurd (ground (arith, e))
  | inr b ↦ (ground arith, Later-count time ts (ground (arith, e)))
]

pub count-Later : (time : ℕ) (ts : List Timer) → Later time ts → count (is_before time) ts ≡ 0
count-Later time [] h = refl
count-Later time (t ∷ ts) h = ground (arith, count-Later time ts h.1)

pub Later-le : (a b : ℕ) (ts : List Timer) → a ≤ b → Later b ts → Later a ts
Later-le a b [] h l = tt
Later-le a b (t ∷ ts) h l = (omega arith, Later-le a b ts h l.1)
