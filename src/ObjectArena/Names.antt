-- ===== src/ObjectArena/Names.antt =====
-- The names that `add_block` gives out find the objects of the block, then and later.
use p_base.Base.{
  ℕ, suc, ◌+◌, ◌*◌, ◌/◌, ◌%◌, ◌^◌, ◌≤◌, ◌<◌, ◌≡◌, refl, ap, ap₂, ◌∙◌, true, arith, Option, none,
  some, ltb, sub64, inl, inr, ◌⊎◌, Bool-cases,
}
use p_base.ObjectArena.{
  GlobalGroup, group_blocks, max_groups, item_of, find_object, store_block, add_loop, add_block_to,
}

-- The groups are filled in order, each from its first place on.
pub record IsArena (a : GlobalGroup) : Type 0 where
  pub some_group : 1 ≤ a.group_size
  pub few_groups : a.group_size ≤ max_groups
  pub fits : (g : ℕ) → a.block_size g ≤ group_blocks
  pub unused : (g : ℕ) → a.group_size ≤ g → a.block_size g ≡ 0
  pub empty : (g n : ℕ) → a.block_size g ≤ n → a.block_list g n ≡ none

-- There is a place left, in the last group or in a new one.
abbrev pub HasPlace : GlobalGroup → Type 0
HasPlace a = (a.block_size (sub64 a.group_size 1) < group_blocks) ⊎ (a.group_size < max_groups)

-- Object `i` of the new block is found under its name, all that was found before is found under
-- the same names, and the arena keeps its invariant.
pub record Adds (i : ℕ) (a : GlobalGroup) (outcome : Option (ℕ × ℕ × GlobalGroup)) : Type 0 where
  pub name : ℕ
  pub after : GlobalGroup
  pub result : outcome ≡ some (a.next_block, name, after)
  pub found : find_object after (name + i) ≡ some (a.next_block, i)
  pub kept : (id : ℕ) (c : ℕ × ℕ) → find_object a id ≡ some c → find_object after id ≡ some c
  pub valid : IsArena after

abbrev last_size : GlobalGroup → ℕ
last_size a = a.block_size (sub64 a.group_size 1)

store_block-IsArena :
    (a : GlobalGroup)
    → IsArena a
    → last_size a < group_blocks
    → IsArena (store_block (last_size a) a)
unfolding store_block
store_block-IsArena a v h = record {
  some_group = v.some_group;
  few_groups = v.few_groups;
  fits = λ g. ground (arith, v.fits g);
  unused = λ g k. ground (arith, v.unused g k, v.some_group, v.few_groups);
  empty = λ g n k. ground (arith, v.empty g n);
}

-- The entry of the new block, and no other one, is changed.
block_list-store_self :
    (a : GlobalGroup) (g m : ℕ)
    → g ≡ sub64 a.group_size 1
    → m ≡ last_size a
    → (store_block (last_size a) a).block_list g m ≡ some a.next_block
unfolding store_block
block_list-store_self a g m e k = ground (arith, e, k)

block_list-store_other :
    (a : GlobalGroup) (g m b : ℕ)
    → IsArena a
    → a.block_list g m ≡ some b
    → (store_block (last_size a) a).block_list g m ≡ some b
unfolding store_block
block_list-store_other a g m b v e = ground (arith, e, v.empty g m)

store_block-found :
    (a : GlobalGroup) (i : ℕ)
    → IsArena a
    → last_size a < group_blocks
    → i < 2 ^ 10
    → find_object (store_block (last_size a) a) ((a.group_size * 2 ^ 10 + last_size a) * 2 ^ 10 + i)
      ≡ some (a.next_block, i)
unfolding find_object
store_block-found a i v h k =
    let id = (a.group_size * 2 ^ 10 + last_size a) * 2 ^ 10 + i in
    let group : sub64 (id % 2 ^ 32 / 2 ^ 10 / 2 ^ 10) 1 ≡ sub64 a.group_size 1 =
      omega (arith, v.few_groups) in
    let place : id % 2 ^ 32 / 2 ^ 10 % 2 ^ 10 ≡ last_size a = omega (arith, v.few_groups) in
    let item : id % 2 ^ 32 % 2 ^ 10 ≡ i = omega arith in
    ap₂ item_of item (
      block_list-store_self a (sub64 (id % 2 ^ 32 / 2 ^ 10 / 2 ^ 10) 1)
        (id % 2 ^ 32 / 2 ^ 10 % 2 ^ 10) group place)

item_of-some :
    (i : ℕ) (p : Option ℕ) (c : ℕ × ℕ)
    → item_of i p ≡ some c
    → (b : ℕ) × (p ≡ some b) × (some (b, i) ≡ some c)
item_of-some i none c e = cc
item_of-some i (some b) c e = (b, refl, e)

store_block-kept :
    (a : GlobalGroup) (id : ℕ) (c : ℕ × ℕ)
    → IsArena a
    → find_object a id ≡ some c
    → find_object (store_block (last_size a) a) id ≡ some c
unfolding find_object
store_block-kept a id c v e =
    let g = sub64 (id % 2 ^ 32 / 2 ^ 10 / 2 ^ 10) 1 in
    let m = id % 2 ^ 32 / 2 ^ 10 % 2 ^ 10 in
    let (b, there, same) = item_of-some (id % 2 ^ 32 % 2 ^ 10) (a.block_list g m) c e in
    ap (item_of (id % 2 ^ 32 % 2 ^ 10)) (block_list-store_other a g m b v there) ∙ same

add_loop-Adds :
    (fuel i : ℕ) (a : GlobalGroup)
    → IsArena a
    → last_size a < group_blocks
    → i < 2 ^ 10
    → Adds i a (add_loop (suc fuel) a)
unfolding add_loop
add_loop-Adds fuel i a v h k =
    let room : ltb (last_size a) group_blocks ≡ true = ground arith in
    record {
      name = (a.group_size * 2 ^ 10 + last_size a) * 2 ^ 10;
      after = store_block (last_size a) a;
      result = rw room refl;
      found = store_block-found a i v h k;
      kept = λ id c e. store_block-kept a id c v e;
      valid = store_block-IsArena a v h;
    }

wide-IsArena :
    (a : GlobalGroup)
    → IsArena a
    → a.group_size < max_groups
    → IsArena (record a { group_size = a.group_size + 1 })
wide-IsArena a v h = record {
  some_group = omega arith;
  few_groups = omega arith;
  fits = v.fits;
  unused = λ g k. v.unused g (omega arith);
  empty = v.empty;
}

-- A group that was just added is empty.
wide_size :
    (a : GlobalGroup)
    → IsArena a
    → a.group_size < max_groups
    → last_size (record a { group_size = a.group_size + 1 }) ≡ 0
wide_size a v h = v.unused (sub64 (a.group_size + 1) 1) (omega arith)

-- As long as the arena has a place, adding a block succeeds, and each of the 1024 objects of the
-- block is found under its name; what was found before stays where it was.
pub add_block_to-Adds :
    (i : ℕ) (a : GlobalGroup) → IsArena a → HasPlace a → i < 2 ^ 10 → Adds i a (add_block_to a)
unfolding add_block_to add_loop find_object
add_block_to-Adds i a v (inl h) k = add_loop-Adds 1 i a v h k
add_block_to-Adds i a v (inr h) k = elim (Bool-cases (ltb (last_size a) group_blocks)) [
  | inl room ↦ add_loop-Adds 1 i a v (ground arith) k
  | inr full ↦
      let groups : ltb a.group_size max_groups ≡ true = ground arith in
      let wide = record a { group_size = a.group_size + 1 } in
      let adds = add_loop-Adds 0 i wide (wide-IsArena a v h) (omega (arith, wide_size a v h)) k in
      record {
        name = adds.name;
        after = adds.after;
        result = rw (full, groups) adds.result;
        found = adds.found;
        kept = adds.kept;
        valid = adds.valid;
      }
]
