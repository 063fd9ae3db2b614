-- ===== src/ObjectPool/LockFree/Changes.antt =====
-- What the atomic steps of `LockFreeStack` leave alone: include/p/base/object_pool.h.
use p_base.Base.{
  ℕ, ◌^◌, ◌<◌, ◌≡◌, ◌≢◌, inl, inr, refl, sym, ◌∙◌, subst, arith, Bool-cases, ◌==◌, true, false,
  List, [], ◌∷◌, ap,
}
use p_base.ObjectPool.{group_key, set_at}
use p_base.ObjectPool.Counts.{count_key}
use p_base.ObjectPool.LockFree.{Call, Place, stacked, Machine, go_to}
use p_base.ObjectPool.LockFree.Invariant.{
  name_of, IsCall, AreStacked, IsMachine, Evolves, IsCall-Evolves, Evolves-refl,
}

-- A node that is not on the stack is not in the list.
pub count_key-AreStacked :
    (place : ℕ → Place) (k : ℕ) (ids : List ℕ)
    → ((p : ℕ) → place k ≢ stacked p)
    → AreStacked place ids
    → count_key k ids ≡ 0
count_key-AreStacked place k [] ne h = refl
count_key-AreStacked place k (id ∷ ids) ne h = elim (Bool-cases (group_key id == k)) [
  | inl e ↦ (let q : group_key id ≡ k = ground arith in absurd (ne id (ap place (sym q) ∙ h.0)))
  | inr e ↦ rw e (count_key-AreStacked place k ids ne h.1)
]

pub AreStacked-set_at :
    (place : ℕ → Place) (k : ℕ) (v : Place) (ids : List ℕ)
    → count_key k ids ≡ 0
    → AreStacked place ids
    → AreStacked (set_at k v place) ids
AreStacked-set_at place k v [] e h = tt
AreStacked-set_at place k v (id ∷ ids) e h =
    let other : group_key id == k ≡ false = ground (arith, e) in
    (rw other h.0, AreStacked-set_at place k v ids (ground (arith, e)) h.1)

pub set_at_self {ℓ} : {A : Type ℓ} (k : ℕ) (v : A) (f : ℕ → A) → set_at k v f k ≡ v
set_at_self k v f = let self : k == k ≡ true = ground arith in rw self refl

-- Thread `t` goes on, and the others as the step lets them.
pub IsCall-set_at :
    (t : ℕ) (c : Call) (place place' : ℕ → Place) (next next' : ℕ → ℕ) (calls : ℕ → Call)
    → Evolves t place place' next next'
    → IsCall place' next' t c
    → ((u : ℕ) → IsCall place next u (calls u))
    → (u : ℕ) → IsCall place' next' u (set_at t c calls u)
IsCall-set_at t c place place' next next' calls e h all u = elim (Bool-cases (u == t)) [
  | inl same ↦
      (let q : t ≡ u = ground arith in rw same (subst (λ j. IsCall place' next' j c) (q) h))
  | inr other ↦
      rw other (IsCall-Evolves t u place place' next next' (calls u) e (ground arith) (all u))
]

pub bounded-set_at :
    (k n : ℕ) (v : Place) (place : ℕ → Place)
    → name_of v < n
    → ((j : ℕ) → j < 2 ^ 32 → name_of (place j) < n)
    → (j : ℕ) → j < 2 ^ 32
    → name_of (set_at k v place j) < n
bounded-set_at k n v place h all j l = elim (Bool-cases (j == k)) [
  | inl e ↦ rw e h
  | inr e ↦ rw e (all j l)
]

pub go_to-IsMachine :
    (t : ℕ) (c : Call) (s : Machine) (ids : List ℕ) (n : ℕ)
    → IsMachine s ids n
    → IsCall s.place s.stack.next t c
    → IsMachine (go_to t c s) ids n
go_to-IsMachine t c s ids n v h = record {
  chain = v.chain;
  once = v.once;
  places = v.places;
  bounded = v.bounded;
  calls =
      IsCall-set_at t c s.place s.place s.stack.next s.stack.next s.calls
        (Evolves-refl t s.place s.stack.next) h v.calls;
  replayed = v.replayed;
}

abbrev pub Keeps : Machine → ℕ → Type 0
Keeps s n = (ids : List ℕ) × IsMachine s ids n
