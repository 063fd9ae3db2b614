-- ===== src/Queue/Examples.antt =====
-- Three nodes go in, and the dummy and two of them come out.
use p_base.Base.{ℕ, ◌≡◌, refl, arith, List, [], ◌∷◌, take, min, length}
use p_base.Queue.{new_queue, push_all, pop_all, push_back, pop_front}
use p_base.Queue.Lag.{AreNew, pop_all-push_all}

abbrev nodes : List ℕ
nodes = 7 ∷ 8 ∷ 9 ∷ []

nodes-AreNew : AreNew (0 ∷ []) nodes
nodes-AreNew = omega arith

late : pop_all 5 (push_all nodes new_queue) ≡ 0 ∷ 7 ∷ 8 ∷ []
unfolding pop_all push_all new_queue push_back pop_front
late = refl

pop_all-push_all_example :
    pop_all 5 (push_all nodes new_queue) ≡ take (min 5 (length nodes)) (0 ∷ nodes)
pop_all-push_all_example = pop_all-push_all nodes 5 nodes-AreNew
