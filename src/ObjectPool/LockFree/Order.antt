-- ===== src/ObjectPool/LockFree/Order.antt =====
-- `LockFreeStack` in every order of the atomic steps of its threads: include/p/base/object_pool.h.
use p_base.Base.{
  ℕ, suc, ◌+◌, ◌^◌, ◌≤◌, ◌<◌, ◌≡◌, inl, inr, refl, arith, Bool-cases, ◌==◌, some, List, [], ◌∷◌,
  length,
}
use p_base.ObjectPool.{group_key}
use p_base.ObjectPool.Stack.{IsStack}
use p_base.ObjectPool.LockFree.{
  Call, idle, pushing, loaded, linked, popping, found, followed, Machine, replay, Action,
  begin_push, begin_pop, advance, fail, begin_push_at, step_at, run_steps, new_machine,
}
use p_base.ObjectPool.LockFree.Invariant.{AreStacked, IsMachine}
use p_base.ObjectPool.LockFree.Changes.{Keeps}
use p_base.ObjectPool.LockFree.Steps.{
  advance-Keeps, fail-Keeps, begin_pop-Keeps, more_pushes, push_from-Keeps,
}

begin_push-Keeps :
    (c : Call) (t value : ℕ) (s : Machine) (ids : List ℕ) (n : ℕ)
    → IsMachine s ids n
    → suc (suc n) ≤ 2 ^ 32
    → Keeps (begin_push_at c t value s) (suc n)
unfolding begin_push_at
begin_push-Keeps idle t value s ids n v few = elim (Bool-cases (group_key value == 0)) [
  | inl e ↦ rw e (ids, more_pushes s ids n v)
  | inr e ↦
      rw e (push_from-Keeps (s.place (group_key value)) t value s ids n v few refl (ground arith))
]
begin_push-Keeps (pushing node) t value s ids n v few = (ids, more_pushes s ids n v)
begin_push-Keeps (loaded node p) t value s ids n v few = (ids, more_pushes s ids n v)
begin_push-Keeps (linked node p) t value s ids n v few = (ids, more_pushes s ids n v)
begin_push-Keeps popping t value s ids n v few = (ids, more_pushes s ids n v)
begin_push-Keeps (found p) t value s ids n v few = (ids, more_pushes s ids n v)
begin_push-Keeps (followed p m) t value s ids n v few = (ids, more_pushes s ids n v)

more : (s : Machine) (n : ℕ) → Keeps s n → Keeps s (suc n)
more s n (ids, v) = (ids, more_pushes s ids n v)

step_at-Keeps :
    (t : ℕ) (a : Action) (s : Machine) (n : ℕ)
    → suc (suc n) ≤ 2 ^ 32
    → Keeps s n
    → Keeps (step_at t a s) (suc n)
unfolding step_at
step_at-Keeps t (begin_push value) s n few (ids, v) =
    begin_push-Keeps (s.calls t) t value s ids n v few
step_at-Keeps t begin_pop s n few (ids, v) = more _ n (begin_pop-Keeps (s.calls t) t s ids n v)
step_at-Keeps t advance s n few (ids, v) =
    more _ n (advance-Keeps (s.calls t) t s ids n v (v.calls t))
step_at-Keeps t fail s n few (ids, v) = more _ n (fail-Keeps (s.calls t) t s ids n v (v.calls t))

run_steps-Keeps :
    (steps : List (ℕ × Action)) (s : Machine) (n : ℕ)
    → suc (n + length steps) ≤ 2 ^ 32
    → Keeps s n
    → Keeps (run_steps steps s) (n + length steps)
unfolding run_steps
run_steps-Keeps [] s n few k = let e : n + 0 ≡ n = omega arith in rw e k
run_steps-Keeps ((t, a) ∷ steps) s n few k =
    let e : n + suc (length steps) ≡ suc n + length steps = omega arith in
    rw e (
      run_steps-Keeps steps (step_at t a s) (suc n) (omega arith)
        (step_at-Keeps t a s n (omega arith) k))

new_machine-IsMachine : IsMachine new_machine [] 0
unfolding new_machine
new_machine-IsMachine = record {
  chain = refl;
  once = λ k. omega arith;
  places = tt;
  bounded = λ k l. omega arith;
  calls = λ t. tt;
  replayed = refl;
}

-- In every order of fewer than 2 ^ 32 atomic steps of any threads, exchanges that fail at random
-- included, where each caller pushes only names that it has: the calls that are done, taken in the
-- order of their last steps, return what they would return on a list with the top in front, the
-- linked stack stands for that list, and no node on it is held or pushed by anyone.
pub run_steps-IsStack :
    (steps : List (ℕ × Action))
    → length steps < 2 ^ 32
    → (ids : List ℕ) × (replay (run_steps steps new_machine).log ≡ some ids)
      × IsStack (run_steps steps new_machine).stack ids
      × AreStacked (run_steps steps new_machine).place ids
run_steps-IsStack steps few =
    let (ids, v) = run_steps-Keeps steps new_machine 0 (omega arith) ([], new_machine-IsMachine) in
    (ids, v.replayed, record { chain = v.chain; once = v.once }, v.places)
