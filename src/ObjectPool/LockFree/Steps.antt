-- ===== src/ObjectPool/LockFree/Steps.antt =====
-- Every atomic step of `LockFreeStack` keeps the invariant: include/p/base/object_pool.h.
use p_base.Base.{
  ℕ, suc, ◌+◌, ◌*◌, ◌^◌, ◌≤◌, ◌<◌, ◌≡◌, ◌≢◌, ◌⊎◌, inl, inr, refl, sym, ◌∙◌, subst, arith,
  Bool-cases, ◌==◌, true, false, List, [], ◌∷◌, ap, add64, ◌>>=◌,
}
use p_base.ObjectPool.{group_key, set_at}
use p_base.ObjectPool.Stack.{Chain-set_at}
use p_base.ObjectPool.Counts.{count_key}
use p_base.ObjectPool.LockFree.{
  Call, idle, pushing, loaded, linked, popping, found, followed, Place, held, given, stacked,
  Machine, push_from, begin_pop_at, fail_at, advance_at,
}
use p_base.ObjectPool.LockFree.Invariant.{
  name_of, IsPast, IsKnown, IsCall, IsMachine, Evolves-refl, Evolves-place, Evolves-next,
}
use p_base.ObjectPool.LockFree.Changes.{
  count_key-AreStacked, AreStacked-set_at, set_at_self, IsCall-set_at, bounded-set_at,
  go_to-IsMachine, Keeps,
}
use p_base.ObjectPool.LockFree.Exchange.{given-ne-stacked, exchange_push-Keeps, exchange_pop-Keeps}

loaded-Keeps :
    (t node p : ℕ) (s : Machine) (ids : List ℕ) (n : ℕ)
    → IsMachine s ids n
    → IsCall s.place s.stack.next t (loaded node p)
    → Keeps (advance_at (loaded node p) t s) n
unfolding advance_at
loaded-Keeps t node p s ids n v (mine, nz) =
    let k = group_key node in
    let fresh : count_key k ids ≡ 0 =
      count_key-AreStacked s.place k ids (λ q z. given-ne-stacked (sym mine ∙ z)) v.places in
    (
      ids,
      record {
        chain = Chain-set_at s.stack.next k p s.stack.head ids fresh v.chain;
        once = v.once;
        places = v.places;
        bounded = v.bounded;
        calls =
            IsCall-set_at t (linked node p) s.place s.place s.stack.next (set_at k p s.stack.next)
              s.calls (Evolves-next t k p node s.place s.stack.next mine)
              (mine, nz, set_at_self k p s.stack.next) v.calls;
        replayed = v.replayed;
      },
    )

popping-Keeps :
    (t : ℕ) (s : Machine) (ids : List ℕ) (n : ℕ)
    → IsMachine s ids n
    → Keeps (advance_at popping t s) n
unfolding advance_at
popping-Keeps t s [] n v =
    let e : s.stack.head == 0 ≡ true = ground (arith, v.chain) in
    rw e (
      [],
      record {
        chain = v.chain;
        once = v.once;
        places = tt;
        bounded = v.bounded;
        calls =
            IsCall-set_at t idle s.place s.place s.stack.next s.stack.next s.calls
              (Evolves-refl t s.place s.stack.next) tt v.calls;
        replayed = rw (v.replayed, ◌>>=◌) refl;
      },
    )
popping-Keeps t s (id ∷ ids) n v =
    let (head, nz, rest) = v.chain in
    let e : s.stack.head == 0 ≡ false = ground (arith, head, nz) in
    let at = subst (λ j. s.place (group_key j) ≡ stacked j) (sym head) v.places.0 in
    rw e (
      id ∷ ids,
      go_to-IsMachine t (found s.stack.head) s (id ∷ ids) n v ((λ z. nz (sym head ∙ z)), inl at),
    )

follow :
    (place : ℕ → Place) (next : ℕ → ℕ) (p : ℕ)
    → (place (group_key p) ≡ stacked p) ⊎ IsPast (place (group_key p)) p
    → IsKnown place next p (next (group_key p))
follow place next p (inl at) = inl (at, refl)
follow place next p (inr past) = inr past

pub advance-Keeps :
    (c : Call) (t : ℕ) (s : Machine) (ids : List ℕ) (n : ℕ)
    → IsMachine s ids n
    → IsCall s.place s.stack.next t c
    → Keeps (advance_at c t s) n
unfolding advance_at
advance-Keeps idle t s ids n v h = (ids, v)
advance-Keeps (pushing node) t s ids n v h =
    (ids, go_to-IsMachine t (loaded node s.stack.head) s ids n v h)
advance-Keeps (loaded node p) t s ids n v h = loaded-Keeps t node p s ids n v h
advance-Keeps (linked node p) t s ids n v h = exchange_push-Keeps t node p s ids n v h
advance-Keeps popping t s ids n v h = popping-Keeps t s ids n v
advance-Keeps (found p) t s ids n v h = (
  ids,
  go_to-IsMachine t (followed p (s.stack.next (group_key p))) s ids n v
      (h.0, follow s.place s.stack.next p h.1),
)
advance-Keeps (followed p m) t s ids n v h = exchange_pop-Keeps t p m s ids n v h

pub fail-Keeps :
    (c : Call) (t : ℕ) (s : Machine) (ids : List ℕ) (n : ℕ)
    → IsMachine s ids n
    → IsCall s.place s.stack.next t c
    → Keeps (fail_at c t s) n
unfolding fail_at
fail-Keeps (linked node p) t s ids n v h =
    (ids, go_to-IsMachine t (pushing node) s ids n v (h.0, h.1))
fail-Keeps (followed p m) t s ids n v h = (ids, go_to-IsMachine t popping s ids n v tt)
fail-Keeps idle t s ids n v h = (ids, v)
fail-Keeps (pushing node) t s ids n v h = (ids, v)
fail-Keeps (loaded node p) t s ids n v h = (ids, v)
fail-Keeps popping t s ids n v h = (ids, v)
fail-Keeps (found p) t s ids n v h = (ids, v)

pub begin_pop-Keeps :
    (c : Call) (t : ℕ) (s : Machine) (ids : List ℕ) (n : ℕ)
    → IsMachine s ids n
    → Keeps (begin_pop_at c t s) n
unfolding begin_pop_at
begin_pop-Keeps idle t s ids n v = (ids, go_to-IsMachine t popping s ids n v tt)
begin_pop-Keeps (pushing node) t s ids n v = (ids, v)
begin_pop-Keeps (loaded node p) t s ids n v = (ids, v)
begin_pop-Keeps (linked node p) t s ids n v = (ids, v)
begin_pop-Keeps popping t s ids n v = (ids, v)
begin_pop-Keeps (found p) t s ids n v = (ids, v)
begin_pop-Keeps (followed p m) t s ids n v = (ids, v)

-- The bound on the names grows with each step.
pub more_pushes : (s : Machine) (ids : List ℕ) (n : ℕ) → IsMachine s ids n → IsMachine s ids (suc n)
more_pushes s ids n v = record {
  chain = v.chain;
  once = v.once;
  places = v.places;
  bounded = λ k l. omega (arith, v.bounded k l);
  calls = v.calls;
  replayed = v.replayed;
}

pub push_from-Keeps :
    (p : Place) (t value : ℕ) (s : Machine) (ids : List ℕ) (n : ℕ)
    → IsMachine s ids n
    → suc (suc n) ≤ 2 ^ 32
    → s.place (group_key value) ≡ p
    → group_key value ≢ 0
    → Keeps (push_from p t value s) (suc n)
unfolding push_from
push_from-Keeps (given u id) t value s ids n v few e nz = (ids, more_pushes s ids n v)
push_from-Keeps (stacked id) t value s ids n v few e nz = (ids, more_pushes s ids n v)
push_from-Keeps (held id) t value s ids n v few e nz = elim (Bool-cases (id == value)) [
  | inr other ↦ rw other (ids, more_pushes s ids n v)
  | inl is ↦
      let k = group_key value in
      let node = add64 value (2 ^ 32) in
      let same : id ≡ value = ground arith in
      let bound : id < 2 ^ 32 * suc n =
        subst (λ x. name_of x < 2 ^ 32 * suc n) e (v.bounded k (omega arith)) in
      let above : node ≡ value + 2 ^ 32 = omega (arith, bound, same, few) in
      let key : group_key node ≡ k = omega (arith, above) in
      let fresh : count_key k ids ≡ 0 =
        count_key-AreStacked s.place k ids (λ q z. held-ne-stacked (sym e ∙ z)) v.places in
      rw is (
        ids,
        record {
          chain = v.chain;
          once = v.once;
          places = AreStacked-set_at s.place k (given t node) ids fresh v.places;
          bounded =
              bounded-set_at k (2 ^ 32 * suc (suc n)) (given t node) s.place
                (omega (arith, above, bound, same)) (λ j l. omega (arith, v.bounded j l));
          calls =
              IsCall-set_at t (pushing node) s.place (set_at k (given t node) s.place) s.stack.next
                s.stack.next s.calls
                (Evolves-place t k (given t node) s.place s.stack.next
                  (λ u other ne z. held-ne-given (sym e ∙ z))
                  (λ q z. absurd (held-ne-stacked (sym e ∙ z)))
                  (λ q z.
                    (let w : q ≤ id = subst (λ x. IsPast x q) e z in omega (arith, above, same))))
                (
                  ap (set_at k (given t node) s.place) key ∙ set_at_self k (given t node) s.place,
                  (λ z. nz (sym key ∙ z)),
                )
                v.calls;
          replayed = v.replayed;
        },
      )
]
  where
    held-ne-stacked : {a q : ℕ} → held a ≡ stacked q → ⊥
    held-ne-stacked z = cc

    held-ne-given : {a u b : ℕ} → held a ≡ given u b → ⊥
    held-ne-given z = cc
