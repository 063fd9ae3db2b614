-- ===== src/ObjectPool/Fits.antt =====
-- No group has more names than it has room for.
use p_base.Base.{
  ℕ, zero, suc, ◌-◌, ◌≤◌, ◌≡◌, refl, sym, subst, arith, ltb, leb, ◌==◌, Option, none, some, List,
  [], ◌∷◌, length, Bool-cases, inl, inr,
}
use p_base.ObjectPool.{
  PoolKind, arena_object_pool, object_pool, item_size, Pool, group_key, push, set_at, put_down,
  rest_of_block, object_group_item_size, new_free_group_of, new_free_group, acquire_block, new_this,
  acquire_new, take_last, acquire_group_of, acquire_group, acquire_local, acquire_of, acquire,
  release_new, release_of, release, end_thread_of, end_thread,
}

abbrev pub Fits : PoolKind → (ℕ → List ℕ) → Type 0
Fits kind items = (g : ℕ) → length (items g) ≤ item_size kind

-- What an operation that may fail leaves.
abbrev pub FitsAfter : PoolKind → Option (ℕ × Pool) → Type 0
FitsAfter kind none = Unit
FitsAfter kind (some r) = Fits kind r.1.items

set_at-Fits :
    (kind : PoolKind) (k : ℕ) (names : List ℕ) (items : ℕ → List ℕ)
    → length names ≤ item_size kind
    → Fits kind items
    → Fits kind (set_at k names items)
set_at-Fits kind k names items l v g = elim (Bool-cases (g == k)) [
  | inl e ↦ rw e l
  | inr e ↦ rw e (v g)
]

length-rest_of_block : (n id : ℕ) → length (rest_of_block n id) ≡ n
unfolding rest_of_block
length-rest_of_block zero id = refl
length-rest_of_block (suc n) id = omega (arith, length-rest_of_block n id)

items-new_free_group : (p : Pool) → (new_free_group p).1.items ≡ p.items
unfolding new_free_group
items-new_free_group p = go p.free_groups
  where
    go : (ids : List ℕ) → (new_free_group_of ids p).1.items ≡ p.items
    go [] = refl
    go (id ∷ ids) = refl

new_group-Fits :
    (kind : PoolKind) (p : Pool) → Fits kind p.items → Fits kind (new_free_group p).1.items
new_group-Fits kind p v = subst (Fits kind) (sym (items-new_free_group p)) v

acquire_new-Fits :
    (kind : PoolKind) (t : ℕ) (p : Pool)
    → Fits kind p.items
    → Fits kind (acquire_new kind t p).1.items
unfolding acquire_new acquire_block new_this
acquire_new-Fits arena_object_pool t p v =
    set_at-Fits arena_object_pool _ _ (new_free_group p).1.items
      (omega (arith, length-rest_of_block (object_group_item_size - 1) _))
      (new_group-Fits arena_object_pool p v)
acquire_new-Fits object_pool t p v = v

take_last-Fits :
    (kind : PoolKind) (t id : ℕ) (names : List ℕ) (p : Pool)
    → Fits kind p.items
    → FitsAfter kind (take_last kind t id names p)
unfolding take_last
take_last-Fits kind t id [] p v = tt
take_last-Fits kind t id (name ∷ names) p v =
    elim (Bool-cases (leb (length (name ∷ names)) (item_size kind))) [
      | inl e ↦ rw e (set_at-Fits kind (group_key id) names p.items (ground arith) v)
      | inr e ↦ rw e tt
    ]

acquire_group-Fits :
    (kind : PoolKind) (t : ℕ) (p : Pool)
    → Fits kind p.items
    → FitsAfter kind (acquire_group kind t p)
unfolding acquire_group
acquire_group-Fits kind t p v = go p.object_groups
  where
    go : (ids : List ℕ) → FitsAfter kind (acquire_group_of kind t ids p)
    go [] = acquire_new-Fits kind t p v
    go (id ∷ ids) =
        take_last-Fits kind t id (p.items (group_key id)) (record p { object_groups = ids }) v

-- `acquire` leaves no group with more names than it has room for.
pub acquire-Fits :
    (kind : PoolKind) (t : ℕ) (p : Pool) → Fits kind p.items → FitsAfter kind (acquire kind t p)
unfolding acquire acquire_of acquire_local
acquire-Fits kind t p v = go (p.local_group t)
  where
    of_local :
        (id : ℕ) (l : List ℕ)
        → length l ≤ item_size kind
        → FitsAfter kind (acquire_local kind t id l p)
    of_local id [] h =
        acquire_group-Fits kind t (put_down t (record p { free_groups = push id p.free_groups })) v
    of_local id (name ∷ names) h =
        set_at-Fits kind (group_key id) names p.items (omega (arith, h)) v

    go : (o : Option ℕ) → FitsAfter kind (acquire_of kind t o p)
    go none = acquire_group-Fits kind t p v
    go (some id) = of_local id (p.items (group_key id)) (v (group_key id))

one-fits : (kind : PoolKind) → 1 ≤ item_size kind
one-fits arena_object_pool = omega arith
one-fits object_pool = omega arith

release_new-Fits :
    (kind : PoolKind) (t obj_id : ℕ) (p : Pool)
    → Fits kind p.items
    → Fits kind (release_new t obj_id p).items
unfolding release_new
release_new-Fits kind t obj_id p v =
    set_at-Fits kind _ (obj_id ∷ []) (new_free_group p).1.items (one-fits kind)
      (new_group-Fits kind p v)

-- Nor does `release`: a group that is full is put aside.
pub release-Fits :
    (kind : PoolKind) (t obj_id : ℕ) (p : Pool)
    → Fits kind p.items
    → Fits kind (release kind t obj_id p).items
unfolding release release_of
release-Fits kind t obj_id p v = go (p.local_group t)
  where
    go : (o : Option ℕ) → Fits kind (release_of kind t obj_id o p).items
    go none = release_new-Fits kind t obj_id p v
    go (some id) = elim (Bool-cases (ltb (length (p.items (group_key id))) (item_size kind))) [
      | inl e ↦ rw e (
          set_at-Fits kind (group_key id) (obj_id ∷ p.items (group_key id)) p.items (ground arith)
            v)
      | inr e ↦ rw e (
          release_new-Fits kind t obj_id
            (put_down t (record p { object_groups = push id p.object_groups })) v)
    ]

pub end_thread-Fits :
    (kind : PoolKind) (t : ℕ) (p : Pool) → Fits kind p.items → Fits kind (end_thread t p).items
unfolding end_thread end_thread_of
end_thread-Fits kind t p v = go (p.local_group t)
  where
    go : (o : Option ℕ) → Fits kind (end_thread_of t o p).items
    go none = v
    go (some id) = elim (Bool-cases (ltb 0 (length (p.items (group_key id))))) [
      | inl e ↦ rw e v
      | inr e ↦ rw e v
    ]
