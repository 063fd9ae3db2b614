-- ===== src/ObjectPool/Release.antt =====
-- `release` and the end of a thread keep the invariant.
use p_base.Base.{
  ℕ, ◌+◌, ◌≤◌, ◌<◌, ◌≡◌, refl, sym, subst, ap, ◌∙◌, arith, ltb, Option, none, some, List, [], ◌∷◌,
  length, true, false, Bool-cases, inl, inr,
}
use p_base.ObjectPool.{
  PoolKind, arena_object_pool, object_pool, item_size, Pool, group_key, push, set_at, put_down,
  new_free_group, release_new, release_of, release, end_thread_of, end_thread,
}
use p_base.ObjectPool.Counts.{count, count_key}
use p_base.ObjectPool.State.{
  top, IsFilled, IsPool, set_items-IsPool, take_up-IsPool, put_down-IsPool, push_free-IsPool,
  push_full-IsPool, in_hand,
}
use p_base.ObjectPool.Groups.{HasRoom, new_free_group-Opens}
use p_base.ObjectPool.Acquire.{put_down_none}

-- A name that was held is in a group, and the pool is as it should be.
pub record Takes (threads : ℕ) (held : List ℕ) (most : ℕ) (after : Pool) : Type 0 where
  pub valid : IsPool threads none held after
  pub blocks : after.group_blocks ≤ most

-- `held` is `obj_id` and `rest`, in any order.
abbrev pub Without : List ℕ → ℕ → List ℕ → Type 0
Without held obj_id rest = (x : ℕ) → count x held ≡ count x (obj_id ∷ rest)

take_name :
    (threads : ℕ) (hand : Option ℕ) (k obj_id : ℕ) (held rest : List ℕ) (p : Pool)
    → IsPool threads hand held p
    → k < top p
    → count_key k p.free_groups ≡ 0
    → count_key k p.object_groups ≡ 0
    → Without held obj_id rest
    → IsPool threads hand rest (record p { items = set_at k (obj_id ∷ p.items k) p.items })
take_name threads hand k obj_id held rest p v h fr fu w =
    set_items-IsPool threads hand held rest k (obj_id ∷ p.items k) p.object_blocks p v h fr fu
      (λ x. ground (arith, v.objects x, w x)) (λ x l. ground (arith, v.objects_new x l, w x))

release_new-Takes :
    (threads t obj_id : ℕ) (held rest : List ℕ) (p : Pool)
    → IsPool threads none held p
    → t < threads
    → p.local_group t ≡ none
    → HasRoom p
    → Without held obj_id rest
    → Takes threads rest (p.group_blocks + 1) (release_new t obj_id p)
unfolding release_new
release_new-Takes threads t obj_id held rest p v h free room w =
    let o = new_free_group-Opens threads held p v room in
    let (id, q) = new_free_group p in
    let (k, fr, fu) = in_hand threads id held q o.valid in
    let filled = take_name threads (some id) (group_key id) obj_id held rest q o.valid k fr fu w in
    let one : IsPool threads (some id) rest
        (record q { items = set_at (group_key id) (obj_id ∷ []) q.items }) =
      subst
        (λ l.
          IsPool threads (some id) rest
            (record q { items = set_at (group_key id) (obj_id ∷ l) q.items }))
        o.empty filled in
    record {
      valid =
          take_up-IsPool threads t id rest
            (record q { items = set_at (group_key id) (obj_id ∷ []) q.items }) one h
            (ap (λ f. f t) o.threads_same ∙ free);
      blocks = o.blocks;
    }

filled : (kind : PoolKind) (l : List ℕ) → ltb (length l) (item_size kind) ≡ false → IsFilled l
filled arena_object_pool [] e = absurd (ground arith)
filled object_pool [] e = absurd (ground arith)
filled kind (x ∷ l) e = tt

-- `release` of a name that is held puts it into a group, where nobody holds it any more, and keeps the
-- invariant.
pub release-Takes :
    (kind : PoolKind) (threads t obj_id : ℕ) (held rest : List ℕ) (p : Pool)
    → IsPool threads none held p
    → t < threads
    → HasRoom p
    → Without held obj_id rest
    → Takes threads rest (p.group_blocks + 1) (release kind t obj_id p)
unfolding release release_of
release-Takes kind threads t obj_id held rest p v h room w = go (p.local_group t) refl
  where
    of_local :
        (id : ℕ)
        → p.local_group t ≡ some id
        → Takes threads rest (p.group_blocks + 1) (release_of kind t obj_id (some id) p)
    of_local id e = elim (Bool-cases (ltb (length (p.items (group_key id))) (item_size kind))) [
      | inl b ↦
          let (a, fr, fu) =
            in_hand threads id held (put_down t p) (put_down-IsPool threads t id held p v h e) in
          rw b (record {
            valid = take_name threads none (group_key id) obj_id held rest p v a fr fu w;
            blocks = omega arith;
          })
      | inr b ↦
          let down =
            push_full-IsPool threads id held (put_down t p)
              (put_down-IsPool threads t id held p v h e)
              (filled kind (p.items (group_key id)) b) in
          rw b (
            release_new-Takes threads t obj_id held rest
              (put_down t (record p { object_groups = push id p.object_groups })) down h
              (put_down_none t p.local_group) room w)
    ]

    go :
        (o : Option ℕ)
        → p.local_group t ≡ o
        → Takes threads rest (p.group_blocks + 1) (release kind t obj_id p)
    go none e =
        subst (Takes threads rest (p.group_blocks + 1))
          (sym (ap (λ o. release_of kind t obj_id o p) e))
          (release_new-Takes threads t obj_id held rest p v h e room w)
    go (some id) e =
        subst (Takes threads rest (p.group_blocks + 1))
          (sym (ap (λ o. release_of kind t obj_id o p) e)) (of_local id e)

-- The end of a thread leaves its group on the stack that it belongs to.
pub end_thread-IsPool :
    (threads t : ℕ) (held : List ℕ) (p : Pool)
    → IsPool threads none held p
    → t < threads
    → Takes threads held p.group_blocks (end_thread t p)
unfolding end_thread end_thread_of
end_thread-IsPool threads t held p v h = go (p.local_group t) refl
  where
    some_left : (l : List ℕ) → ltb 0 (length l) ≡ true → IsFilled l
    some_left [] e = absurd (ground arith)
    some_left (x ∷ l) e = tt

    none_left : (l : List ℕ) → ltb 0 (length l) ≡ false → l ≡ []
    none_left [] e = refl
    none_left (x ∷ l) e = absurd (ground arith)

    go : (o : Option ℕ) → p.local_group t ≡ o → Takes threads held p.group_blocks (end_thread t p)
    go none e =
        subst (Takes threads held p.group_blocks) (sym (ap (λ o. end_thread_of t o p) e))
          (record { valid = v; blocks = omega arith })
    go (some id) e =
        let down = put_down-IsPool threads t id held p v h e in
        subst (Takes threads held p.group_blocks) (sym (ap (λ o. end_thread_of t o p) e))
          (elim (Bool-cases (ltb 0 (length (p.items (group_key id))))) [
            | inl b ↦ rw b (record {
              valid =
                  push_full-IsPool threads id held (put_down t p) down
                    (some_left (p.items (group_key id)) b);
              blocks = omega arith;
            })
            | inr b ↦ rw b (record {
              valid =
                  push_free-IsPool threads id held (put_down t p) down
                    (none_left (p.items (group_key id)) b);
              blocks = omega arith;
            })
          ])
