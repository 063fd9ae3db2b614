-- ===== src/ObjectArena.antt =====
-- `ObjectArena`: include/p/base/object_arena.h. Objects stand in blocks, blocks in groups, and the
-- name of an object is the places of the three. A block is named by a number that `new` gives out
-- once; the calls come one after the other.
pub mod Names
mod Examples
use p_base.Base.{
  ℕ, zero, suc, ◌+◌, ◌*◌, ◌/◌, ◌%◌, ◌^◌, Option, none, some, ltb, ◌==◌, if◌then◌else◌, add64, sub64,
}

-- `N` and `NG`
abbrev pub group_blocks : ℕ
group_blocks = 2 ^ 10

abbrev pub max_groups : ℕ
max_groups = 2 ^ 11

-- `block_list` and `block_size` are those of each group; an entry that was not stored is `none`.
pub record GlobalGroup : Type 0 where
  pub group_size : ℕ
  pub block_size : ℕ → ℕ
  pub block_list : ℕ → ℕ → Option ℕ
  pub next_block : ℕ

-- The constructor adds the first group.
abbrev pub new_global_group : GlobalGroup
new_global_group = record {
  group_size = 1;
  block_size = λ _. 0;
  block_list = λ _ _. none;
  next_block = 0;
}

abbrev pub item_of : ℕ → Option ℕ → Option (ℕ × ℕ)
item_of i none = none
item_of i (some block) = some (block, i)

-- The block of an object, and its place in the block.
unfoldable pub find_object : GlobalGroup → ℕ → Option (ℕ × ℕ)
find_object a id =
    let obj_id = id % 2 ^ 32 in
    let block_id = obj_id / 2 ^ 10 in
    let group_id = sub64 (block_id / 2 ^ 10) 1 in
    item_of (obj_id % 2 ^ 10) (a.block_list group_id (block_id % 2 ^ 10))

-- Block `next_block` goes to place `n` of the last group.
unfoldable pub store_block : ℕ → GlobalGroup → GlobalGroup
store_block n a = record a {
  block_size = λ g. if g == sub64 a.group_size 1 then n + 1 else a.block_size g;
  block_list = λ g m.
      if g == sub64 a.group_size 1
      then (if m == n then some a.next_block else a.block_list g m)
      else a.block_list g m;
  next_block = a.next_block + 1;
}

-- One round for the last group, and one for a group that is added then.
unfoldable pub add_loop : ℕ → GlobalGroup → Option (ℕ × ℕ × GlobalGroup)
unfolding store_block
add_loop zero a = none
add_loop (suc fuel) a =
    let n = a.block_size (sub64 a.group_size 1) in
    let rest = add_loop fuel (record a { group_size = a.group_size + 1 }) in
    if ltb n group_blocks
    then some (a.next_block, (a.group_size * 2 ^ 10 + n) * 2 ^ 10, store_block n a)
    else (if ltb a.group_size max_groups then rest else none)

-- The new block, the name of its first object, and the arena; `none` is the null pointer, when all
-- groups are full.
unfoldable pub add_block_to : GlobalGroup → Option (ℕ × ℕ × GlobalGroup)
unfolding add_loop
add_block_to a = add_loop 2 a
