-- ===== src/Queue/Lag.antt =====
-- `LinkedQueue` gives every node one call late, the dummy first: include/p/base/queue.h.
use p_base.Base.{
  ℕ, zero, suc, ◌≡◌, ◌≢◌, refl, sym, ap, subst, ◌∙◌, arith, Bool-cases, inl, inr, true, false, ◌==◌,
  Option, none, some, List, [], ◌∷◌, ◌++◌, append_assoc, append-nil, length, take, min,
}
use p_base.Queue.{
  set_next, LinkedQueue, new_queue, push_back, pop_at, pop_result, pop_front, push_all, pop_all,
}

-- The links from the head over `ids` to the tail.
abbrev Links : (ℕ → Option ℕ) → ℕ → List ℕ → ℕ → Type 0
Links next head [] tail = (head ≡ tail) × (next tail ≡ none)
Links next head (i ∷ ids) tail = (next head ≡ some i) × Links next i ids tail

abbrev NotIn : ℕ → List ℕ → Type 0
NotIn x [] = Unit
NotIn x (y ∷ ys) = (x ≢ y) × NotIn x ys

-- Each node is none of those in the queue nor of those before it.
abbrev pub AreNew : List ℕ → List ℕ → Type 0
AreNew seen [] = Unit
AreNew seen (x ∷ xs) = NotIn x seen × AreNew (seen ++ x ∷ []) xs

next-tail :
    (next : ℕ → Option ℕ) (head tail : ℕ) (ids : List ℕ)
    → Links next head ids tail
    → next tail ≡ none
next-tail next head tail [] l = l.1
next-tail next head tail (i ∷ ids) l = next-tail next i tail ids l.1

Links-push :
    (next : ℕ → Option ℕ) (head tail x : ℕ) (ids : List ℕ)
    → NotIn x (head ∷ ids)
    → Links next head ids tail
    → Links (set_next tail (some x) (set_next x none next)) head (ids ++ x ∷ []) x
Links-push next head tail x [] new l =
    let at : head == tail ≡ true = ground (arith, l.0) in
    let other : x == tail ≡ false = ground (arith, l.0, new.0) in
    let self : x == x ≡ true = ground arith in (rw at refl, (refl, rw (other, self) refl))
Links-push next head tail x (i ∷ ids) new l =
    let last : head == tail ≡ false =
      not_last next head tail i l.0 (next-tail next i tail ids l.1) in
    let other : head == x ≡ false = ground (arith, new.0) in
    (rw (last, other) l.0, Links-push next i tail x ids new.1 l.1)
  where
    not_last :
        (next : ℕ → Option ℕ) (head tail i : ℕ)
        → next head ≡ some i
        → next tail ≡ none
        → head == tail ≡ false
    not_last next head tail i e n = elim (Bool-cases (head == tail)) [
      | inr b ↦ b
      | inl b ↦
          (let q : head ≡ tail = ground arith in absurd (none_some (sym n ∙ ap next (sym q) ∙ e)))
    ]
      where
        none_some : none ≡ some i → ⊥
        none_some z = cc

abbrev IsQueue : LinkedQueue → List ℕ → Type 0
IsQueue q ids = Links q.next q.head ids q.tail

push_all-IsQueue :
    (xs ids : List ℕ) (q : LinkedQueue)
    → IsQueue q ids
    → AreNew (q.head ∷ ids) xs
    → IsQueue (push_all xs q) (ids ++ xs) × ((push_all xs q).head ≡ q.head)
unfolding push_all push_back
push_all-IsQueue [] ids q v new =
    (subst (λ (l : List ℕ). IsQueue q l) (sym (append-nil ids)) v, refl)
push_all-IsQueue (x ∷ xs) ids q v new =
    let (after, same) =
      push_all-IsQueue xs (ids ++ x ∷ []) (push_back x q)
        (Links-push q.next q.head q.tail x ids new.0 v) new.1 in
    (
      subst (λ (l : List ℕ). IsQueue (push_all xs (push_back x q)) l) (append_assoc ids (x ∷ []) xs)
          after,
      same,
    )

pop_all-IsQueue :
    (k : ℕ) (ids : List ℕ) (q : LinkedQueue)
    → IsQueue q ids
    → pop_all k q ≡ take (min k (length ids)) (q.head ∷ ids)
unfolding pop_all pop_front
pop_all-IsQueue zero ids q v =
    let e : 0 ≡ min 0 (length ids) = omega arith in ap (λ n. take n (q.head ∷ ids)) (e)
pop_all-IsQueue (suc k) [] q v =
    let e : q.next q.head ≡ none = ap q.next v.0 ∙ v.1 in
    let z : 0 ≡ min (suc k) 0 = omega arith in
    ap (λ n. pop_result (pop_at n q).0 (pop_all k (pop_at n q).1)) e
    ∙ ap (λ n. take n (q.head ∷ [])) (z)
pop_all-IsQueue (suc k) (i ∷ ids) q v =
    let z : suc (min k (length ids)) ≡ min (suc k) (suc (length ids)) = omega arith in
    ap (λ n. pop_result (pop_at n q).0 (pop_all k (pop_at n q).1)) v.0
    ∙ ap (λ l. q.head ∷ l) (pop_all-IsQueue k ids (record q { head = i }) v.1)
    ∙ ap (λ n. take n (q.head ∷ i ∷ ids)) (z)

-- However many nodes are pushed into a new queue, the calls of `pop_front` return the dummy and then the
-- nodes in order, but the last one never: there is none left when the nodes before it are out.
pub pop_all-push_all :
    (xs : List ℕ) (k : ℕ)
    → AreNew (0 ∷ []) xs
    → pop_all k (push_all xs new_queue) ≡ take (min k (length xs)) (0 ∷ xs)
unfolding new_queue
pop_all-push_all xs k new =
    let (v, same) = push_all-IsQueue xs [] new_queue (refl, refl) new in
    pop_all-IsQueue k xs (push_all xs new_queue) v
    ∙ ap (λ h. take (min k (length xs)) (h ∷ xs)) same
