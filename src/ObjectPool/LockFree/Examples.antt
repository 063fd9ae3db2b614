-- ===== src/ObjectPool/LockFree/Examples.antt =====
-- Threads that push and pop at once.
use p_base.Base.{ℕ, ◌+◌, ◌*◌, ◌^◌, ◌≡◌, refl, arith, some, List, [], ◌∷◌, ◌++◌}
use p_base.ObjectPool.Stack.{IsStack}
use p_base.ObjectPool.LockFree.{
  Action, begin_push, begin_pop, advance, pushed, popped, none_left, replay, run_steps, new_machine,
}
use p_base.ObjectPool.LockFree.Invariant.{AreStacked}
use p_base.ObjectPool.LockFree.Order.{run_steps-IsStack}

abbrev push_whole : ℕ → ℕ → List (ℕ × Action)
push_whole t value = (t, begin_push value) ∷ (t, advance) ∷ (t, advance) ∷ (t, advance) ∷ []

abbrev pop_whole : ℕ → List (ℕ × Action)
pop_whole t = (t, begin_pop) ∷ (t, advance) ∷ (t, advance) ∷ (t, advance) ∷ []

-- Thread 1 is about to take 6 off 5 when thread 2 takes both and gives 6 back: the exchange of
-- thread 1 fails, and it starts anew.
abbrev both_pop : List (ℕ × Action)
both_pop =
    push_whole 0 5
    ++ push_whole 0 6
    ++ (1, begin_pop)
      ∷ (1, advance)
      ∷ (1, advance)
      ∷ (pop_whole 2
          ++ pop_whole 2
          ++ push_whole 2 (2 ^ 32 + 6)
          ++ (1, advance)
            ∷ (1, advance)
            ∷ (1, advance)
            ∷ (1, advance)
            ∷ (1, begin_pop)
            ∷ (1, advance)
            ∷ [])

both_pop_log :
    (run_steps both_pop new_machine).log
    ≡ none_left
      ∷ popped (2 * 2 ^ 32 + 6)
      ∷ pushed (2 * 2 ^ 32 + 6)
      ∷ popped (2 ^ 32 + 5)
      ∷ popped (2 ^ 32 + 6)
      ∷ pushed (2 ^ 32 + 6)
      ∷ pushed (2 ^ 32 + 5)
      ∷ []
unfolding run_steps new_machine
both_pop_log = refl

run_steps-IsStack_example :
    (ids : List ℕ) × (replay (run_steps both_pop new_machine).log ≡ some ids)
    × IsStack (run_steps both_pop new_machine).stack ids
    × AreStacked (run_steps both_pop new_machine).place ids
run_steps-IsStack_example = run_steps-IsStack both_pop (omega arith)
