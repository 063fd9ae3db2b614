-- ===== src/ObjectPool/Stack.antt =====
-- `LockFreeStack`: include/p/base/object_pool.h, with calls one after the other. A node is found by its
-- name modulo 2 ^ 32; the upper half of a name is a version.
use p_base.Base.{
  ℕ, ◌^◌, ◌≤◌, ◌≡◌, ◌≢◌, refl, sym, subst, ap, ◌∙◌, arith, ◌==◌, if◌then◌else◌, List, [], ◌∷◌, true,
  false, add64,
}
use p_base.ObjectPool.{group_key, set_at, push}
use p_base.ObjectPool.Counts.{count_key}

-- `head_`, 0 for none, and the `next` of each node.
pub record LockFreeStack : Type 0 where
  pub head : ℕ
  pub next : ℕ → ℕ

unfoldable pub stack_push : ℕ → LockFreeStack → LockFreeStack
stack_push value s =
    let node = add64 value (2 ^ 32) in
    record { head = node; next = set_at (group_key node) s.head s.next }

-- The name that is returned, 0 for none.
unfoldable pub stack_pop : LockFreeStack → ℕ × LockFreeStack
stack_pop s =
    if s.head == 0 then (0, s) else (s.head, record s { head = s.next (group_key s.head) })

-- The names along the links from `head`, to the end.
abbrev pub Chain : (ℕ → ℕ) → ℕ → List ℕ → Type 0
Chain next head [] = head ≡ 0
Chain next head (id ∷ ids) = (head ≡ id) × (id ≢ 0) × Chain next (next (group_key id)) ids

-- The stack stands for a list of names, no two of the same node.
pub record IsStack (s : LockFreeStack) (ids : List ℕ) : Type 0 where
  pub chain : Chain s.next s.head ids
  pub once : (k : ℕ) → count_key k ids ≤ 1

pub Chain-set_at :
    (next : ℕ → ℕ) (k v head : ℕ) (ids : List ℕ)
    → count_key k ids ≡ 0
    → Chain next head ids
    → Chain (set_at k v next) head ids
Chain-set_at next k v head [] h c = c
Chain-set_at next k v head (id ∷ ids) h (e, n, c) =
    let other : group_key id == k ≡ false = ground (arith, h) in
    (e, n, rw other (Chain-set_at next k v (next (group_key id)) ids (ground (arith, h)) c))

stack_push-IsStack :
    (value : ℕ) (s : LockFreeStack) (ids : List ℕ)
    → IsStack s ids
    → count_key (group_key value) ids ≡ 0
    → group_key value ≢ 0
    → IsStack (stack_push value s) (push value ids)
unfolding stack_push
stack_push-IsStack value s ids v h n =
    let node = add64 value (2 ^ 32) in
    let same : group_key node ≡ group_key value = omega arith in
    let self : group_key node == group_key node ≡ true = ground arith in
    record {
      chain = (
        refl,
        (λ e. n (omega (arith, e))),
        rw self (
            Chain-set_at s.next (group_key node) s.head s.head ids
              (ap (λ k. count_key k ids) same ∙ h) v.chain),
      );
      once = λ k. ground (arith, v.once k, h, same);
    }

-- What `pop` does to the list.
abbrev pub popped : List ℕ → ℕ × List ℕ
popped [] = (0, [])
popped (id ∷ ids) = (id, ids)

stack_pop-IsStack :
    (s : LockFreeStack) (ids : List ℕ)
    → IsStack s ids
    → ((stack_pop s).0 ≡ (popped ids).0) × IsStack (stack_pop s).1 (popped ids).1
unfolding stack_pop
stack_pop-IsStack s [] v = let e : s.head == 0 ≡ true = ground (arith, v.chain) in rw e (refl, v)
stack_pop-IsStack s (id ∷ ids) v =
    let (k, n, c) = v.chain in
    let e : s.head == 0 ≡ false = ground (arith, k, n) in
    rw e (
      k,
      record {
        chain = subst (λ h. Chain s.next (s.next (group_key h)) ids) (sym k) c;
        once = λ g. ground (arith, v.once g);
      },
    )

-- The linked stack does what a list with the top in front does: a push of the name of a node that is not
-- on it, with its version one higher, and a pop, which returns the name in front or 0; both keep every
-- node once.
pub stack_push-stack_pop-IsStack :
    (value : ℕ) (s : LockFreeStack) (ids : List ℕ)
    → IsStack s ids
    → count_key (group_key value) ids ≡ 0
    → group_key value ≢ 0
    → IsStack (stack_push value s) (push value ids)
      × ((stack_pop s).0 ≡ (popped ids).0)
      × IsStack (stack_pop s).1 (popped ids).1
stack_push-stack_pop-IsStack value s ids v h n =
    let (a, b) = stack_pop-IsStack s ids v in (stack_push-IsStack value s ids v h n, a, b)
