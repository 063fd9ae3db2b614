-- ===== src/ObjectPool/State.antt =====
-- The invariant of the pool, and the small moves that its operations are made of.
use p_base.Base.{
  ℕ, add64, ◌^◌, ◌+◌, ◌≤◌, ◌<◌, ◌≡◌, ◌≢◌, refl, sym, subst, ap, ◌∙◌, arith, ◌==◌, Option, none,
  some, List, [], ◌∷◌, true, false,
}
use p_base.ObjectPool.{Pool, group_key, block_name, push, set_at, put_down}
use p_base.ObjectPool.Counts.{count, count_key, uses, sum, sum-change}

abbrev pub top : Pool → ℕ
top p = block_name p.group_blocks

-- How often a name is in a group or held by a caller.
abbrev pub total : ℕ → List ℕ → Pool → ℕ
total x held p = sum (top p) (λ g. count x (p.items g)) + count x held

-- How many places have group `g`: threads, the two stacks, and `hand`, where an operation has it in its
-- hand.
abbrev pub owners : ℕ → ℕ → Option ℕ → Pool → ℕ
owners threads g hand p =
    sum threads (λ t. uses g (p.local_group t))
    + count_key g p.object_groups
    + count_key g p.free_groups
    + uses g hand

abbrev pub AllEmpty : (ℕ → List ℕ) → List ℕ → Type 0
AllEmpty items [] = Unit
AllEmpty items (id ∷ ids) = (items (group_key id) ≡ []) × AllEmpty items ids

abbrev pub IsFilled : List ℕ → Type 0
IsFilled [] = ⊥
IsFilled (x ∷ xs) = Unit

abbrev pub AllFilled : (ℕ → List ℕ) → List ℕ → Type 0
AllFilled items [] = Unit
AllFilled items (id ∷ ids) = IsFilled (items (group_key id)) × AllFilled items ids

-- Each group has one owner and each name stands in one place, `held` being the names that callers hold;
-- names that no block has are nowhere; the groups on one stack have names, those on the other none.
pub record IsPool (threads : ℕ) (hand : Option ℕ) (held : List ℕ) (p : Pool) : Type 0 where
  pub groups : (g : ℕ) → owners threads g hand p ≤ 1
  pub groups_new : (g : ℕ) → top p ≤ g → owners threads g hand p ≡ 0
  pub objects : (x : ℕ) → total x held p ≤ 1
  pub objects_new : (x : ℕ) → block_name p.object_blocks ≤ x → total x held p ≡ 0
  pub free : AllEmpty p.items p.free_groups
  pub full : AllFilled p.items p.object_groups
  pub blank : (g : ℕ) → top p ≤ g → p.items g ≡ []
  pub room : top p ≤ 2 ^ 32

AllEmpty-set_at :
    (items : ℕ → List ℕ) (k : ℕ) (names : List ℕ) (ids : List ℕ)
    → count_key k ids ≡ 0
    → AllEmpty items ids
    → AllEmpty (set_at k names items) ids
AllEmpty-set_at items k names [] h a = tt
AllEmpty-set_at items k names (id ∷ ids) h (a, more) =
    let e : group_key id == k ≡ false = ground (arith, h) in
    rw e (a, AllEmpty-set_at items k names ids (ground (arith, h)) more)

AllFilled-set_at :
    (items : ℕ → List ℕ) (k : ℕ) (names : List ℕ) (ids : List ℕ)
    → count_key k ids ≡ 0
    → AllFilled items ids
    → AllFilled (set_at k names items) ids
AllFilled-set_at items k names [] h a = tt
AllFilled-set_at items k names (id ∷ ids) h (a, more) =
    let e : group_key id == k ≡ false = ground (arith, h) in
    rw e (a, AllFilled-set_at items k names ids (ground (arith, h)) more)

set_at_self : (k : ℕ) (v : List ℕ) (f : ℕ → List ℕ) → set_at k v f k ≡ v
set_at_self k v f = let e : k == k ≡ true = ground arith in rw e refl

set_at_other : {A : Type 0} (k : ℕ) (v : A) (f : ℕ → A) (j : ℕ) → j ≢ k → f j ≡ set_at k v f j
set_at_other k v f j h = let e : j == k ≡ false = ground arith in rw e refl

-- The names of group `k`, which is on no stack, change, and those that are held.
pub set_items-IsPool :
    (threads : ℕ) (hand : Option ℕ) (held held' : List ℕ) (k : ℕ) (names : List ℕ) (blocks : ℕ)
    (p : Pool)
    → IsPool threads hand held p
    → k < top p
    → count_key k p.free_groups ≡ 0
    → count_key k p.object_groups ≡ 0
    → ((x : ℕ)
        → total x held p + (count x names + count x held')
          ≤ 1 + (count x (p.items k) + count x held))
    → ((x : ℕ)
        → block_name blocks ≤ x
        → total x held p + (count x names + count x held') ≡ count x (p.items k) + count x held)
    → IsPool threads hand held'
        (record p { items = set_at k names p.items; object_blocks = blocks })
set_items-IsPool threads hand held held' k names blocks p v h fr fu gain new =
    let after = record p { items = set_at k names p.items; object_blocks = blocks } in
    let change : (x : ℕ)
        → total x held' after + (count x (p.items k) + count x held)
          ≡ total x held p + (count x names + count x held') =
      λ x. omega (
        arith,
        sum-change (top p) k (λ g. count x (p.items g)) (λ g. count x (set_at k names p.items g)) h
            (λ j e. ap (count x) (set_at_other k names p.items j e)),
        ap (count x) (set_at_self k names p.items),
      ) in
    record {
      groups = v.groups;
      groups_new = v.groups_new;
      objects = λ x. omega (arith, change x, gain x);
      objects_new = λ x l. omega (arith, change x, new x l);
      free = AllEmpty-set_at p.items k names p.free_groups fr v.free;
      full = AllFilled-set_at p.items k names p.object_groups fu v.full;
      blank =
          λ g l. sym (set_at_other k names p.items g (λ e. omega (arith, h, l, e))) ∙ v.blank g l;
      room = v.room;
    }

uses-sum :
    (threads t g : ℕ) (o : Option ℕ) (f : ℕ → Option ℕ)
    → t < threads
    → sum threads (λ u. uses g (set_at t o f u)) + uses g (f t)
      ≡ sum threads (λ u. uses g (f u)) + uses g o
uses-sum threads t g o f h =
    let other : (j : ℕ) → j ≢ t → uses g (f j) ≡ uses g (set_at t o f j) =
      λ j e. ap (uses g) (set_at_other t o f j e) in
    let self : uses g (set_at t o f t) ≡ uses g o =
      let e : t == t ≡ true = ground arith in rw e refl in
    omega
      (arith, sum-change threads t (λ u. uses g (f u)) (λ u. uses g (set_at t o f u)) h other, self)

-- A thread without a group takes the one in hand, and a thread puts its group down.
pub take_up-IsPool :
    (threads t id : ℕ) (held : List ℕ) (p : Pool)
    → IsPool threads (some id) held p
    → t < threads
    → p.local_group t ≡ none
    → IsPool threads none held (record p { local_group = set_at t (some id) p.local_group })
take_up-IsPool threads t id held p v h e = record {
  groups =
      λ g. omega (arith, v.groups g, uses-sum threads t g (some id) p.local_group h, ap (uses g) e);
  groups_new = λ g l.
      omega
        (arith, v.groups_new g l, uses-sum threads t g (some id) p.local_group h, ap (uses g) e);
  objects = v.objects;
  objects_new = v.objects_new;
  free = v.free;
  full = v.full;
  blank = v.blank;
  room = v.room;
}

pub put_down-IsPool :
    (threads t id : ℕ) (held : List ℕ) (p : Pool)
    → IsPool threads none held p
    → t < threads
    → p.local_group t ≡ some id
    → IsPool threads (some id) held (put_down t p)
put_down-IsPool threads t id held p v h e = record {
  groups = λ g. omega (arith, v.groups g, uses-sum threads t g none p.local_group h, ap (uses g) e);
  groups_new = λ g l.
      omega (arith, v.groups_new g l, uses-sum threads t g none p.local_group h, ap (uses g) e);
  objects = v.objects;
  objects_new = v.objects_new;
  free = v.free;
  full = v.full;
  blank = v.blank;
  room = v.room;
}

push_key : (id : ℕ) → group_key (add64 id (2 ^ 32)) ≡ group_key id
push_key id = omega arith

count_key-push :
    (g id : ℕ) (ids : List ℕ) → count_key g (push id ids) ≡ uses g (some id) + count_key g ids
count_key-push g id ids = rw (push_key id) (ground arith)

-- The group in hand goes to a stack.
pub push_free-IsPool :
    (threads id : ℕ) (held : List ℕ) (p : Pool)
    → IsPool threads (some id) held p
    → p.items (group_key id) ≡ []
    → IsPool threads none held (record p { free_groups = push id p.free_groups })
push_free-IsPool threads id held p v e = record {
  groups = λ g. omega (arith, v.groups g, count_key-push g id p.free_groups);
  groups_new = λ g l. omega (arith, v.groups_new g l, count_key-push g id p.free_groups);
  objects = v.objects;
  objects_new = v.objects_new;
  free = (ap p.items (push_key id) ∙ e, v.free);
  full = v.full;
  blank = v.blank;
  room = v.room;
}

pub push_full-IsPool :
    (threads id : ℕ) (held : List ℕ) (p : Pool)
    → IsPool threads (some id) held p
    → IsFilled (p.items (group_key id))
    → IsPool threads none held (record p { object_groups = push id p.object_groups })
push_full-IsPool threads id held p v e = record {
  groups = λ g. omega (arith, v.groups g, count_key-push g id p.object_groups);
  groups_new = λ g l. omega (arith, v.groups_new g l, count_key-push g id p.object_groups);
  objects = v.objects;
  objects_new = v.objects_new;
  free = v.free;
  full = (subst IsFilled (sym (ap p.items (push_key id))) e, v.full);
  blank = v.blank;
  room = v.room;
}

-- A group comes from a stack into the hand.
pub pop_free-IsPool :
    (threads id : ℕ) (ids held : List ℕ) (p : Pool)
    → IsPool threads none held p
    → p.free_groups ≡ id ∷ ids
    → IsPool threads (some id) held (record p { free_groups = ids }) × (p.items (group_key id) ≡ [])
pop_free-IsPool threads id ids held p v e =
    let (here, rest) : AllEmpty p.items (id ∷ ids) = subst (AllEmpty p.items) e v.free in
    (
      record {
        groups = λ g. ground (arith, v.groups g, ap (count_key g) e);
        groups_new = λ g l. ground (arith, v.groups_new g l, ap (count_key g) e);
        objects = v.objects;
        objects_new = v.objects_new;
        free = rest;
        full = v.full;
        blank = v.blank;
        room = v.room;
      },
      here,
    )

pub pop_full-IsPool :
    (threads id : ℕ) (ids held : List ℕ) (p : Pool)
    → IsPool threads none held p
    → p.object_groups ≡ id ∷ ids
    → IsPool threads (some id) held (record p { object_groups = ids })
      × IsFilled (p.items (group_key id))
pop_full-IsPool threads id ids held p v e =
    let (here, rest) : AllFilled p.items (id ∷ ids) = subst (AllFilled p.items) e v.full in
    (
      record {
        groups = λ g. ground (arith, v.groups g, ap (count_key g) e);
        groups_new = λ g l. ground (arith, v.groups_new g l, ap (count_key g) e);
        objects = v.objects;
        objects_new = v.objects_new;
        free = v.free;
        full = rest;
        blank = v.blank;
        room = v.room;
      },
      here,
    )

-- A group in hand is one of a block, and on no stack.
pub in_hand :
    (threads id : ℕ) (held : List ℕ) (p : Pool)
    → IsPool threads (some id) held p
    → (group_key id < top p)
      × (count_key (group_key id) p.free_groups ≡ 0)
      × (count_key (group_key id) p.object_groups ≡ 0)
in_hand threads id held p v = (
  ground (arith, v.groups_new (group_key id)),
  ground (arith, v.groups (group_key id)),
  ground (arith, v.groups (group_key id)),
)
