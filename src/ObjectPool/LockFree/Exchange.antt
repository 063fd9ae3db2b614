-- ===== src/ObjectPool/LockFree/Exchange.antt =====
-- The exchanges of `LockFreeStack` keep the invariant: include/p/base/object_pool.h.
use p_base.Base.{
  ℕ, suc, ◌*◌, ◌^◌, ◌<◌, ◌≡◌, inl, inr, refl, sym, ◌∙◌, subst, arith, Bool-cases, ◌==◌, true, List,
  [], ◌∷◌, ◌>>=◌,
}
use p_base.ObjectPool.{group_key, set_at}
use p_base.ObjectPool.Stack.{Chain}
use p_base.ObjectPool.Counts.{count_key}
use p_base.ObjectPool.LockFree.{
  idle, pushing, linked, popping, followed, Place, held, given, stacked, Machine, popped,
  exchange_push, exchange_pop,
}
use p_base.ObjectPool.LockFree.Invariant.{
  name_of, IsPast, IsKnown, IsCall, IsMachine, Evolves-place,
}
use p_base.ObjectPool.LockFree.Changes.{
  count_key-AreStacked, AreStacked-set_at, set_at_self, IsCall-set_at, bounded-set_at,
  go_to-IsMachine, Keeps,
}

pub given-ne-stacked : {t a q : ℕ} → given t a ≡ stacked q → ⊥
given-ne-stacked e = cc

given_thread : {u t a b : ℕ} → given u a ≡ given t b → u ≡ t
given_thread e = cc

stacked_name : {p q : ℕ} → stacked p ≡ stacked q → p ≡ q
stacked_name e = cc

given_name : {u t a b : ℕ} → given u a ≡ given t b → a ≡ b
given_name e = cc

pub exchange_push-Keeps :
    (t node p : ℕ) (s : Machine) (ids : List ℕ) (n : ℕ)
    → IsMachine s ids n
    → IsCall s.place s.stack.next t (linked node p)
    → Keeps (exchange_push t node p s) n
unfolding exchange_push
exchange_push-Keeps t node p s ids n v h = elim (Bool-cases (s.stack.head == p)) [
  | inr e ↦ rw e (ids, go_to-IsMachine t (pushing node) s ids n v (h.0, h.1))
  | inl e ↦
      let k = group_key node in
      let (mine, nz, link) = h in
      let head : s.stack.head ≡ p = ground arith in
      let fresh : count_key k ids ≡ 0 =
        count_key-AreStacked s.place k ids (λ q z. given-ne-stacked (sym mine ∙ z)) v.places in
      let at : set_at k (stacked node) s.place k ≡ stacked node =
        set_at_self k (stacked node) s.place in
      let bound : node < 2 ^ 32 * suc n =
        subst (λ x. name_of x < 2 ^ 32 * suc n) mine (v.bounded k (omega arith)) in
      rw e (
        node ∷ ids,
        record {
          chain = (
            refl,
            (λ z. nz (omega (arith, z))),
            subst (λ j. Chain s.stack.next j ids) (head ∙ sym link) v.chain,
          );
          once = λ j. ground (arith, v.once j, fresh);
          places = (at, AreStacked-set_at s.place k (stacked node) ids fresh v.places);
          bounded = bounded-set_at k (2 ^ 32 * suc n) (stacked node) s.place bound v.bounded;
          calls =
              IsCall-set_at t idle s.place (set_at k (stacked node) s.place) s.stack.next
                s.stack.next s.calls
                (Evolves-place t k (stacked node) s.place s.stack.next
                  (λ u other ne z. ne (given_thread (sym z ∙ mine)))
                  (λ q z. absurd (given-ne-stacked (sym mine ∙ z)))
                  (λ q z. subst (λ x. IsPast x q) mine z))
                tt v.calls;
          replayed = rw (v.replayed, ◌>>=◌) refl;
        },
      )
]

-- A name on the stack is not past, so a `pop` whose exchange finds its name at the head knows the
-- link.
known_link :
    (place : ℕ → Place) (next : ℕ → ℕ) (p n : ℕ)
    → place (group_key p) ≡ stacked p
    → IsKnown place next p n
    → next (group_key p) ≡ n
known_link place next p n at (inl (same, link)) = link
known_link place next p n at (inr past) =
    let below : p < p = subst (λ x. IsPast x p) at past in absurd (omega arith)

-- The exchange of `pop` at its head.
pop_head :
    (t p m : ℕ) (s : Machine) (ids : List ℕ) (n : ℕ)
    → IsMachine s ids n
    → IsCall s.place s.stack.next t (followed p m)
    → s.stack.head ≡ p
    → Keeps
        (record s {
          stack = record s.stack { head = m };
          place = set_at (group_key p) (held p) s.place;
          calls = set_at t idle s.calls;
          log = popped p ∷ s.log;
        })
        n
pop_head t p m s [] n v h e = absurd (h.0 (sym e ∙ v.chain))
pop_head t p m s (id ∷ ids) n v (nz, known) e =
    let k = group_key p in
    let (head, _, rest) = v.chain in
    let same : id ≡ p = sym head ∙ e in
    let at : s.place k ≡ stacked p =
      subst (λ j. s.place (group_key j) ≡ stacked j) same v.places.0 in
    let link : s.stack.next k ≡ m = known_link s.place s.stack.next p m at known in
    let fresh : count_key k ids ≡ 0 = ground (arith, v.once k, same) in
    let bound : p < 2 ^ 32 * suc n =
      subst (λ x. name_of x < 2 ^ 32 * suc n) at (v.bounded k (omega arith)) in
    (
      ids,
      record {
        chain =
            subst (λ j. Chain s.stack.next j ids) link
              (subst (λ j. Chain s.stack.next (s.stack.next (group_key j)) ids) same rest);
        once = λ j. ground (arith, v.once j);
        places = AreStacked-set_at s.place k (held p) ids fresh v.places.1;
        bounded = bounded-set_at k (2 ^ 32 * suc n) (held p) s.place bound v.bounded;
        calls =
            IsCall-set_at t idle s.place (set_at k (held p) s.place) s.stack.next s.stack.next
              s.calls
              (Evolves-place t k (held p) s.place s.stack.next
                (λ u other ne z. given-ne-stacked (sym z ∙ at))
                (λ q z. (let w : q ≡ p = stacked_name (sym z ∙ at) in omega (arith, w)))
                (λ q z. (let w : q < p = subst (λ x. IsPast x q) at z in omega arith)))
              tt v.calls;
        replayed =
            let self : id == p ≡ true = ground (arith, same) in rw (v.replayed, ◌>>=◌, self) refl;
      },
    )

pub exchange_pop-Keeps :
    (t p m : ℕ) (s : Machine) (ids : List ℕ) (n : ℕ)
    → IsMachine s ids n
    → IsCall s.place s.stack.next t (followed p m)
    → Keeps (exchange_pop t p m s) n
unfolding exchange_pop
exchange_pop-Keeps t p m s ids n v h = elim (Bool-cases (s.stack.head == p)) [
  | inr e ↦ rw e (ids, go_to-IsMachine t popping s ids n v tt)
  | inl e ↦ rw e (pop_head t p m s ids n v h (ground arith))
]
