-- ===== src/ObjectPool/Groups.antt =====
-- `new_free_object_group` gives a group without names.
use p_base.Base.{
  ℕ, zero, suc, add64, ◌^◌, ◌+◌, ◌-◌, ◌≤◌, ◌<◌, ◌≡◌, refl, sym, subst, ap, arith, none, some, List,
  [], ◌∷◌,
}
use p_base.ObjectPool.{
  Pool, group_key, block_name, push, push_next, object_group_item_size, new_free_group_of,
  new_free_group,
}
use p_base.ObjectPool.Counts.{count, count_key, sum, sum_nothing, count-push_next}
use p_base.ObjectPool.State.{top, AllEmpty, IsPool, pop_free-IsPool}

-- There is room for another block of groups.
abbrev pub HasRoom : Pool → Type 0
HasRoom p = block_name (p.group_blocks + 1) ≤ 2 ^ 32

AllEmpty-push_next :
    (items : ℕ → List ℕ) (b n id : ℕ) (ids : List ℕ)
    → id + n < 2 ^ 32
    → b ≤ id
    → ((g : ℕ) → b ≤ g → items g ≡ [])
    → AllEmpty items ids
    → AllEmpty items (push_next n id ids)
unfolding push_next
AllEmpty-push_next items b zero id ids h k e a = a
AllEmpty-push_next items b (suc n) id ids h k e a =
    AllEmpty-push_next items b n (id + 1) (push (id + 1) ids) (omega arith) (omega arith) e
      (e (group_key (add64 (id + 1) (2 ^ 32))) (omega arith), a)

-- A group without names in the hand, and nothing else changed.
pub record Opens (threads : ℕ) (held : List ℕ) (p : Pool) (res : ℕ × Pool) : Type 0 where
  pub valid : IsPool threads (some res.0) held res.1
  pub empty : res.1.items (group_key res.0) ≡ []
  pub threads_same : res.1.local_group ≡ p.local_group
  pub blocks : res.1.group_blocks ≤ p.group_blocks + 1

abbrev opened : Pool → Pool
opened p = record p {
  free_groups = push_next (object_group_item_size - 1) (top p) [];
  group_blocks = p.group_blocks + 1;
}

opened-IsPool :
    (threads : ℕ) (held : List ℕ) (p : Pool)
    → IsPool threads none held p
    → HasRoom p
    → p.free_groups ≡ []
    → IsPool threads (some (top p)) held (opened p)
opened-IsPool threads held p v h e =
    let pushed : (g : ℕ)
        → (count_key g (opened p).free_groups ≤ 1)
          × (g ≤ top p → count_key g (opened p).free_groups ≡ 0)
          × (top p + 1023 < g → count_key g (opened p).free_groups ≡ 0) =
      λ g. count-push_next g 1023 (top p) [] (omega (arith, h)) in
    let more : (x : ℕ)
        → sum (top (opened p)) (λ g. count x (p.items g)) ≡ sum (top p) (λ g. count x (p.items g)) =
      λ x.
        let size : top (opened p) ≡ 1024 + top p = omega arith in
        rw size (
          sum_nothing (top p) 1024 (λ g. count x (p.items g))
            (λ g l. ap (count x) (v.blank g l))) in
    record {
      groups = λ g. ground (arith, v.groups g, v.groups_new g, pushed g, ap (count_key g) e, h);
      groups_new = λ g l. ground (arith, v.groups_new g, pushed g, ap (count_key g) e, h);
      objects = λ x. omega (arith, v.objects x, more x);
      objects_new = λ x l. omega (arith, v.objects_new x l, more x);
      free =
          AllEmpty-push_next p.items (top p) 1023 (top p) [] (omega (arith, h)) (omega arith)
            v.blank tt;
      full = v.full;
      blank = λ g l. v.blank g (omega arith);
      room = h;
    }

pub new_free_group-Opens :
    (threads : ℕ) (held : List ℕ) (p : Pool)
    → IsPool threads none held p
    → HasRoom p
    → Opens threads held p (new_free_group p)
unfolding new_free_group
new_free_group-Opens threads held p v h = go p.free_groups refl
  where
    go : (ids : List ℕ) → p.free_groups ≡ ids → Opens threads held p (new_free_group p)
    go [] e =
        let same : new_free_group p ≡ (top p, opened p) = ap (λ ids. new_free_group_of ids p) e in
        subst (Opens threads held p) (sym same) (record {
          valid = opened-IsPool threads held p v h e;
          empty = v.blank (group_key (top p)) (omega (arith, h));
          threads_same = refl;
          blocks = omega arith;
        })
    go (id ∷ ids) e =
        let same : new_free_group p ≡ (id, record p { free_groups = ids }) =
          ap (λ ids. new_free_group_of ids p) e in
        let (w, k) = pop_free-IsPool threads id ids held p v e in
        subst (Opens threads held p) (sym same)
          (record { valid = w; empty = k; threads_same = refl; blocks = omega arith })
