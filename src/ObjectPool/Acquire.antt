-- ===== src/ObjectPool/Acquire.antt =====
-- `acquire` always gives a name, one that nobody holds.
use p_base.Base.{
  ℕ, ◌+◌, ◌-◌, ◌≤◌, ◌<◌, ◌≡◌, refl, sym, subst, ap, ◌∙◌, arith, ◌==◌, Option, none, some, List, [],
  ◌∷◌, true, leb, length,
}
use p_base.ObjectPool.{
  PoolKind, item_size, arena_object_pool, object_pool, new_this, acquire_new, Pool, group_key,
  block_name, push, rest_of_block, set_at, put_down, use_group, object_group_item_size,
  new_free_group, acquire_block, take_last, acquire_group_of, acquire_group, acquire_local,
  acquire_of, acquire,
}
use p_base.ObjectPool.Counts.{count, count_key, count-rest_of_block}
use p_base.ObjectPool.State.{
  top, IsFilled, IsPool, set_items-IsPool, take_up-IsPool, put_down-IsPool, push_free-IsPool,
  pop_full-IsPool, in_hand,
}
use p_base.ObjectPool.Fits.{Fits}
use p_base.ObjectPool.Groups.{HasRoom, new_free_group-Opens}

-- A name that nobody holds, and a pool in which it is held, with at most `most` blocks of groups.
pub record Gives (threads : ℕ) (held : List ℕ) (most : ℕ) (res : Option (ℕ × Pool)) : Type 0 where
  pub name : ℕ
  pub after : Pool
  pub given : res ≡ some (name, after)
  pub valid : IsPool threads none (name ∷ held) after
  pub blocks : after.group_blocks ≤ most

acquire_block-Gives :
    (threads t id : ℕ) (held : List ℕ) (p : Pool)
    → IsPool threads (some id) held p
    → t < threads
    → p.local_group t ≡ none
    → p.items (group_key id) ≡ []
    → Gives threads held p.group_blocks (some (acquire_block t (id, p)))
unfolding acquire_block
acquire_block-Gives threads t id held p v h free e =
    let b = block_name p.object_blocks in
    let names = rest_of_block (object_group_item_size - 1) b in
    let (k, fr, fu) = in_hand threads id held p v in
    let w =
      set_items-IsPool threads (some id) held (b ∷ held) (group_key id) names (p.object_blocks + 1)
        p v k fr fu
        (λ x.
          ground
            (arith, v.objects x, v.objects_new x, count-rest_of_block x 1023 b, ap (count x) e))
        (λ x l. ground (arith, v.objects_new x, count-rest_of_block x 1023 b, ap (count x) e)) in
    record {
      name = b;
      after = use_group t id names (record p { object_blocks = p.object_blocks + 1 });
      given = refl;
      valid =
          take_up-IsPool threads t id (b ∷ held)
            (record p {
              items = set_at (group_key id) names p.items;
              object_blocks = p.object_blocks + 1;
            })
            w h free;
      blocks = omega arith;
    }

-- One name of a group that is in the hand or a thread's is given out.
give_name :
    (threads : ℕ) (hand : Option ℕ) (k name : ℕ) (names held : List ℕ) (p : Pool)
    → IsPool threads hand held p
    → k < top p
    → count_key k p.free_groups ≡ 0
    → count_key k p.object_groups ≡ 0
    → p.items k ≡ name ∷ names
    → IsPool threads hand (name ∷ held) (record p { items = set_at k names p.items })
give_name threads hand k name names held p v h fr fu e =
    set_items-IsPool threads hand held (name ∷ held) k names p.object_blocks p v h fr fu
      (λ x. ground (arith, v.objects x, ap (count x) e))
      (λ x l. ground (arith, v.objects_new x l, ap (count x) e))

take_last-Gives :
    (kind : PoolKind) (threads t id : ℕ) (held : List ℕ) (p : Pool)
    → IsPool threads (some id) held p
    → t < threads
    → p.local_group t ≡ none
    → IsFilled (p.items (group_key id))
    → Fits kind p.items
    → Gives threads held p.group_blocks (take_last kind t id (p.items (group_key id)) p)
unfolding take_last
take_last-Gives kind threads t id held p v h free f fits = go (p.items (group_key id)) refl f
  where
    go :
        (l : List ℕ)
        → p.items (group_key id) ≡ l
        → IsFilled l
        → Gives threads held p.group_blocks (take_last kind t id l p)
    go [] e f = absurd f
    go (name ∷ names) e tt =
        let (k, fr, fu) = in_hand threads id held p v in
        let within : leb (length (name ∷ names)) (item_size kind) ≡ true =
          ground (arith, fits (group_key id), ap length e) in
        record {
          name = name;
          after = use_group t id names p;
          given = rw within refl;
          valid =
              take_up-IsPool threads t id (name ∷ held)
                (record p { items = set_at (group_key id) names p.items })
                (give_name threads (some id) (group_key id) name names held p v k fr fu e) h free;
          blocks = omega arith;
        }

new_this-Gives :
    (threads : ℕ) (held : List ℕ) (p : Pool)
    → IsPool threads none held p
    → Gives threads held p.group_blocks (some (new_this p))
unfolding new_this
new_this-Gives threads held p v = record {
  name = block_name p.object_blocks;
  after = record p { object_blocks = p.object_blocks + 1 };
  given = refl;
  valid = record {
    groups = v.groups;
    groups_new = v.groups_new;
    objects = λ x. ground (arith, v.objects x, v.objects_new x);
    objects_new = λ x l. ground (arith, v.objects_new x);
    free = v.free;
    full = v.full;
    blank = v.blank;
    room = v.room;
  };
  blocks = omega arith;
}

acquire_new-Gives :
    (kind : PoolKind) (threads t : ℕ) (held : List ℕ) (p : Pool)
    → IsPool threads none held p
    → t < threads
    → p.local_group t ≡ none
    → HasRoom p
    → Gives threads held (p.group_blocks + 1) (some (acquire_new kind t p))
unfolding acquire_new
acquire_new-Gives arena_object_pool threads t held p v h free room =
    let o = new_free_group-Opens threads held p v room in
    let r = new_free_group p in
    let g =
      acquire_block-Gives threads t r.0 held r.1 o.valid h (ap (λ f. f t) o.threads_same ∙ free)
        o.empty in
    record {
      name = g.name;
      after = g.after;
      given = g.given;
      valid = g.valid;
      blocks = omega (arith, g.blocks, o.blocks);
    }
acquire_new-Gives object_pool threads t held p v h free room =
    let g = new_this-Gives threads held p v in
    record {
      name = g.name;
      after = g.after;
      given = g.given;
      valid = g.valid;
      blocks = omega (arith, g.blocks);
    }

acquire_group-Gives :
    (kind : PoolKind) (threads t : ℕ) (held : List ℕ) (p : Pool)
    → IsPool threads none held p
    → t < threads
    → p.local_group t ≡ none
    → HasRoom p
    → Fits kind p.items
    → Gives threads held (p.group_blocks + 1) (acquire_group kind t p)
unfolding acquire_group
acquire_group-Gives kind threads t held p v h free room fits = go p.object_groups refl
  where
    go :
        (ids : List ℕ)
        → p.object_groups ≡ ids
        → Gives threads held (p.group_blocks + 1) (acquire_group kind t p)
    go [] e =
        subst (Gives threads held (p.group_blocks + 1))
          (sym (ap (λ ids. acquire_group_of kind t ids p) e))
          (acquire_new-Gives kind threads t held p v h free room)
    go (id ∷ ids) e =
        let (w, f) = pop_full-IsPool threads id ids held p v e in
        let q = record p { object_groups = ids } in
        let same : acquire_group kind t p ≡ take_last kind t id (p.items (group_key id)) q =
          ap (λ ids. acquire_group_of kind t ids p) e in
        let g = take_last-Gives kind threads t id held q w h free f fits in
        record {
          name = g.name;
          after = g.after;
          given = same ∙ g.given;
          valid = g.valid;
          blocks = omega (arith, g.blocks);
        }

pub put_down_none : (t : ℕ) (f : ℕ → Option ℕ) → set_at t none f t ≡ none
put_down_none t f = let e : t == t ≡ true = ground arith in rw e refl

-- While no more blocks of groups are needed than the arena has names for, `acquire` always gives a name,
-- one that nobody holds, and keeps the invariant.
pub acquire-Gives :
    (kind : PoolKind) (threads t : ℕ) (held : List ℕ) (p : Pool)
    → IsPool threads none held p
    → t < threads
    → HasRoom p
    → Fits kind p.items
    → Gives threads held (p.group_blocks + 1) (acquire kind t p)
unfolding acquire acquire_of acquire_local
acquire-Gives kind threads t held p v h room fits = go (p.local_group t) refl
  where
    of_local :
        (id : ℕ) (l : List ℕ)
        → p.local_group t ≡ some id
        → p.items (group_key id) ≡ l
        → Gives threads held (p.group_blocks + 1) (acquire_local kind t id l p)
    of_local id [] e k =
        let w =
          push_free-IsPool threads id held (put_down t p)
            (put_down-IsPool threads t id held p v h e) k in
        acquire_group-Gives kind threads t held
          (put_down t (record p { free_groups = push id p.free_groups })) w h
          (put_down_none t p.local_group) room fits
    of_local id (name ∷ names) e k =
        let (a, fr, fu) =
          in_hand threads id held (put_down t p) (put_down-IsPool threads t id held p v h e) in
        record {
          name = name;
          after = record p { items = set_at (group_key id) names p.items };
          given = refl;
          valid = give_name threads none (group_key id) name names held p v a fr fu k;
          blocks = omega arith;
        }

    go :
        (o : Option ℕ)
        → p.local_group t ≡ o
        → Gives threads held (p.group_blocks + 1) (acquire kind t p)
    go none e =
        subst (Gives threads held (p.group_blocks + 1)) (sym (ap (λ o. acquire_of kind t o p) e))
          (acquire_group-Gives kind threads t held p v h e room fits)
    go (some id) e =
        subst (Gives threads held (p.group_blocks + 1)) (sym (ap (λ o. acquire_of kind t o p) e))
          (of_local id (p.items (group_key id)) e refl)
