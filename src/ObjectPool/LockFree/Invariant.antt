-- ===== src/ObjectPool/LockFree/Invariant.antt =====
-- What holds between the atomic steps of `LockFreeStack`: the links are the list of the names on the
-- stack, and a `pop` under way knows the link of its name unless that name is past.
use p_base.Base.{
  ℕ, suc, ◌*◌, ◌^◌, ◌≤◌, ◌<◌, ◌≡◌, ◌≢◌, ◌⊎◌, inl, inr, refl, sym, ◌∙◌, subst, arith, Bool-cases,
  ◌==◌, some, List, [], ◌∷◌, ap,
}
use p_base.ObjectPool.{group_key, set_at}
use p_base.ObjectPool.Stack.{Chain}
use p_base.ObjectPool.Counts.{count_key}
use p_base.ObjectPool.LockFree.{
  Call, idle, pushing, loaded, linked, popping, found, followed, Place, held, given, stacked,
  Machine, replay,
}

-- The name of a node, and that a node will never be on the stack under the name `p` again.
abbrev pub name_of : Place → ℕ
name_of (held id) = id
name_of (given t id) = id
name_of (stacked id) = id

abbrev pub IsPast : Place → ℕ → Type 0
IsPast (held id) p = p ≤ id
IsPast (given t id) p = p < id
IsPast (stacked id) p = p < id

-- `next` of a name that is on the stack, or the name is past.
abbrev pub IsKnown : (ℕ → Place) → (ℕ → ℕ) → ℕ → ℕ → Type 0
IsKnown place next p n =
    ((place (group_key p) ≡ stacked p) × (next (group_key p) ≡ n)) ⊎ IsPast (place (group_key p)) p

-- What a thread relies on.
abbrev pub IsCall : (ℕ → Place) → (ℕ → ℕ) → ℕ → Call → Type 0
IsCall place next t idle = Unit
IsCall place next t (pushing node) = (place (group_key node) ≡ given t node) × (group_key node ≢ 0)
IsCall place next t (loaded node p) = (place (group_key node) ≡ given t node) × (group_key node ≢ 0)
IsCall place next t (linked node p) =
    (place (group_key node) ≡ given t node) × (group_key node ≢ 0) × (next (group_key node) ≡ p)
IsCall place next t popping = Unit
IsCall place next t (found p) =
    (p ≢ 0) × ((place (group_key p) ≡ stacked p) ⊎ IsPast (place (group_key p)) p)
IsCall place next t (followed p n) = (p ≢ 0) × IsKnown place next p n

abbrev pub AreStacked : (ℕ → Place) → List ℕ → Type 0
AreStacked place [] = Unit
AreStacked place (id ∷ ids) = (place (group_key id) ≡ stacked id) × AreStacked place ids

-- The stack is the list `ids`, and no name has been pushed `pushes` times.
pub record IsMachine (s : Machine) (ids : List ℕ) (pushes : ℕ) : Type 0 where
  pub chain : Chain s.stack.next s.stack.head ids
  pub once : (k : ℕ) → count_key k ids ≤ 1
  pub places : AreStacked s.place ids
  pub bounded : (k : ℕ) → k < 2 ^ 32 → name_of (s.place k) < 2 ^ 32 * suc pushes
  pub calls : (t : ℕ) → IsCall s.place s.stack.next t (s.calls t)
  pub replayed : replay s.log ≡ some ids

-- What a step of thread `t` leaves to the others: what they push stays theirs, and a name on the
-- stack keeps its link or is past, as all that are past stay.
pub record Evolves (t : ℕ) (place place' : ℕ → Place) (next next' : ℕ → ℕ) : Type 0 where
  pub others :
      (k u node : ℕ)
      → u ≢ t
      → place k ≡ given u node
      → (place' k ≡ given u node) × (next' k ≡ next k)
  pub stays :
      (k p : ℕ)
      → place k ≡ stacked p
      → ((place' k ≡ stacked p) × (next' k ≡ next k)) ⊎ IsPast (place' k) p
  pub past : (k p : ℕ) → IsPast (place k) p → IsPast (place' k) p

pub IsCall-Evolves :
    (t u : ℕ) (place place' : ℕ → Place) (next next' : ℕ → ℕ) (c : Call)
    → Evolves t place place' next next'
    → u ≢ t
    → IsCall place next u c
    → IsCall place' next' u c
IsCall-Evolves t u place place' next next' idle e ne h = tt
IsCall-Evolves t u place place' next next' (pushing node) e ne h =
    ((e.others (group_key node) u node ne h.0).0, h.1)
IsCall-Evolves t u place place' next next' (loaded node p) e ne h =
    ((e.others (group_key node) u node ne h.0).0, h.1)
IsCall-Evolves t u place place' next next' (linked node p) e ne h =
    let (same, link) = e.others (group_key node) u node ne h.0 in (same, h.1, link ∙ h.2)
IsCall-Evolves t u place place' next next' popping e ne h = tt
IsCall-Evolves t u place place' next next' (found p) e ne (nz, inr past) =
    (nz, inr (e.past (group_key p) p past))
IsCall-Evolves t u place place' next next' (found p) e ne (nz, inl at) =
    elim (e.stays (group_key p) p at) [
      | inl (same, link) ↦ (nz, inl same)
      | inr past ↦ (nz, inr past)
    ]
IsCall-Evolves t u place place' next next' (followed p n) e ne (nz, inr past) =
    (nz, inr (e.past (group_key p) p past))
IsCall-Evolves t u place place' next next' (followed p n) e ne (nz, inl (at, known)) =
    elim (e.stays (group_key p) p at) [
      | inl (same, link) ↦ (nz, inl (same, link ∙ known))
      | inr past ↦ (nz, inr past)
    ]

-- A step that changes no place and no link.
pub Evolves-refl : (t : ℕ) (place : ℕ → Place) (next : ℕ → ℕ) → Evolves t place place next next
Evolves-refl t place next = record {
  others = λ k u node ne e. (e, refl);
  stays = λ k p e. inl (e, refl);
  past = λ k p h. h;
}

-- A step that changes the place of one node, which is not another thread's, to one where every name
-- that was past is past, as is the one that was on the stack.
pub Evolves-place :
    (t k : ℕ) (v : Place) (place : ℕ → Place) (next : ℕ → ℕ)
    → ((u node : ℕ) → u ≢ t → place k ≢ given u node)
    → ((p : ℕ) → place k ≡ stacked p → IsPast v p)
    → ((p : ℕ) → IsPast (place k) p → IsPast v p)
    → Evolves t place (set_at k v place) next next
Evolves-place t k v place next mine leaves past = record {
  others = λ j u node ne e. elim (Bool-cases (j == k)) [
    | inl same ↦ (let q : j ≡ k = ground arith in absurd (mine u node ne (ap place (sym q) ∙ e)))
    | inr other ↦ rw other (e, refl)
  ];
  stays = λ j p e. elim (Bool-cases (j == k)) [
    | inl same ↦ (let q : j ≡ k = ground arith in rw same (inr (leaves p (ap place (sym q) ∙ e))))
    | inr other ↦ rw other (inl (e, refl))
  ];
  past = λ j p h. elim (Bool-cases (j == k)) [
    | inl same ↦
        (let q : j ≡ k = ground arith in rw same (past p (subst (λ i. IsPast (place i) p) (q) h)))
    | inr other ↦ rw other h
  ];
}

-- A step that changes the link of a node that thread `t` pushes.
pub Evolves-next :
    (t k n node : ℕ) (place : ℕ → Place) (next : ℕ → ℕ)
    → place k ≡ given t node
    → Evolves t place place next (set_at k n next)
Evolves-next t k n node place next mine = record {
  others = λ j u other ne e. elim (Bool-cases (j == k)) [
    | inl same ↦
        (let q : j ≡ k = ground arith in absurd (ne (given_thread (sym e ∙ ap place q ∙ mine))))
    | inr other ↦ rw other (e, refl)
  ];
  stays = λ j p e. elim (Bool-cases (j == k)) [
    | inl same ↦
        (let q : j ≡ k = ground arith in absurd (stacked_given (sym e ∙ ap place q ∙ mine)))
    | inr other ↦ rw other (inl (e, refl))
  ];
  past = λ j p h. h;
}
  where
    given_thread : {u t a b : ℕ} → given u a ≡ given t b → u ≡ t
    given_thread e = cc

    stacked_given : {p t b : ℕ} → stacked p ≡ given t b → ⊥
    stacked_given e = cc
