-- ===== src/Queue.antt =====
-- `LinkedQueue` of include/p/base/queue.h, with calls one after the other. A node is a number; the dummy of the queue is 0.
pub mod Lag
mod Examples
use p_base.Base.{ℕ, zero, suc, ◌==◌, if◌then◌else◌, Option, none, some, List, [], ◌∷◌, true, false}

abbrev pub set_next : ℕ → Option ℕ → (ℕ → Option ℕ) → ℕ → Option ℕ
set_next p v next j = if j == p then v else next j

pub record LinkedQueue : Type 0 where
  pub head : ℕ
  pub tail : ℕ
  pub next : ℕ → Option ℕ

unfoldable pub new_queue : LinkedQueue
new_queue = record { head = 0; tail = 0; next = λ p. none }

unfoldable pub push_back : ℕ → LinkedQueue → LinkedQueue
push_back node q = record {
  head = q.head;
  tail = node;
  next = set_next q.tail (some node) (set_next node none q.next);
}

abbrev pub pop_at : Option ℕ → LinkedQueue → Option ℕ × LinkedQueue
pop_at none q = (none, q)
pop_at (some n) q = (some q.head, record q { head = n })

unfoldable pub pop_front : LinkedQueue → Option ℕ × LinkedQueue
pop_front q = pop_at (q.next q.head) q

unfoldable pub push_all : List ℕ → LinkedQueue → LinkedQueue
push_all [] q = q
push_all (x ∷ xs) q = push_all xs (push_back x q)

abbrev pub pop_result : Option ℕ → List ℕ → List ℕ
pop_result none rest = []
pop_result (some p) rest = p ∷ rest

-- What up to `k` calls of `pop_front` return, until one returns no node.
unfoldable pub pop_all : ℕ → LinkedQueue → List ℕ
pop_all zero q = []
pop_all (suc k) q = pop_result (pop_front q).0 (pop_all k (pop_front q).1)
