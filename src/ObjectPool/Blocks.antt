-- ===== src/ObjectPool/Blocks.antt =====
-- The names of blocks that the pool counts on are those that the arena gives out.
use p_base.Base.{
  ℕ, zero, suc, ◌+◌, ◌*◌, ◌^◌, ◌≤◌, ◌<◌, ◌≡◌, refl, ap, ◌∙◌, arith, Option, none, some, ltb, sub64,
  List, [], ◌∷◌, true, Bool-cases, inl, inr,
}
use p_base.ObjectArena.{
  GlobalGroup, group_blocks, max_groups, new_global_group, store_block, add_loop, add_block_to,
}
use p_base.ObjectPool.{block_name}

-- The names that `n` calls of `add_block` give, in their order.
abbrev pub put_name : ℕ → Option (List ℕ) → Option (List ℕ)
put_name name none = none
put_name name (some names) = some (name ∷ names)

abbrev pub then_name :
    (GlobalGroup → Option (List ℕ)) → Option (ℕ × ℕ × GlobalGroup) → Option (List ℕ)
then_name f none = none
then_name f (some (block, name, a)) = put_name name (f a)

unfoldable pub add_blocks : ℕ → GlobalGroup → Option (List ℕ)
unfolding add_block_to
add_blocks zero a = some []
add_blocks (suc n) a = then_name (add_blocks n) (add_block_to a)

-- The names of `n` blocks, from block `first` on.
abbrev pub block_names : ℕ → ℕ → List ℕ
block_names first zero = []
block_names first (suc n) = block_name first ∷ block_names (first + 1) n

-- The arena has `n` blocks.
record HasBlocks (n : ℕ) (a : GlobalGroup) : Type 0 where
  place : n + group_blocks ≡ a.group_size * group_blocks + a.block_size (sub64 a.group_size 1)
  groups : (1 ≤ a.group_size) × (a.group_size ≤ max_groups)
  last : a.block_size (sub64 a.group_size 1) ≤ group_blocks
  unused : (g : ℕ) → a.group_size ≤ g → a.block_size g ≡ 0

record Names (n : ℕ) (res : Option (ℕ × ℕ × GlobalGroup)) : Type 0 where
  block : ℕ
  after : GlobalGroup
  given : res ≡ some (block, block_name n, after)
  valid : HasBlocks (n + 1) after

stored :
    (n : ℕ) (a : GlobalGroup)
    → HasBlocks n a
    → a.block_size (sub64 a.group_size 1) < group_blocks
    → Names n (
        some (
          a.next_block,
          (a.group_size * 2 ^ 10 + a.block_size (sub64 a.group_size 1)) * 2 ^ 10,
          store_block (a.block_size (sub64 a.group_size 1)) a,
        ))
unfolding store_block
stored n a v h =
    let m = a.block_size (sub64 a.group_size 1) in
    record {
      block = a.next_block;
      after = store_block m a;
      given = ap (λ k. some (a.next_block, k, store_block m a)) (omega (arith, v.place));
      valid = record {
        place = ground (arith, v.place);
        groups = v.groups;
        last = ground (arith, h);
        unused = λ g k. ground (arith, v.unused g k, v.groups);
      };
    }

add_block_to-Names :
    (n : ℕ) (a : GlobalGroup) → HasBlocks n a → n < 2 ^ 21 → Names n (add_block_to a)
unfolding add_block_to add_loop
add_block_to-Names n a v h =
    let m = a.block_size (sub64 a.group_size 1) in
    elim (Bool-cases (ltb m group_blocks)) [
      | inl b ↦ rw b (stored n a v (ground arith))
      | inr b ↦
          let k : ltb a.group_size max_groups ≡ true = ground (arith, v.place, v.groups) in
          let t = record a { group_size = a.group_size + 1 } in
          let index : sub64 (a.group_size + 1) 1 ≡ a.group_size = omega (arith, v.groups) in
          let nothing : t.block_size (sub64 t.group_size 1) ≡ 0 =
            ap a.block_size index ∙ v.unused a.group_size (omega arith) in
          let room : ltb (t.block_size (sub64 t.group_size 1)) group_blocks ≡ true =
            ground (arith, nothing) in
          let w : HasBlocks n t = record {
            place = ground (arith, v.place, v.last, nothing);
            groups = ground (arith, v.groups);
            last = omega (arith, nothing);
            unused = λ g l. v.unused g (omega arith);
          } in
          let s = stored n t w (omega (arith, nothing)) in rw (b, k, room) s
    ]

add_blocks-names :
    (n first : ℕ) (a : GlobalGroup)
    → HasBlocks first a
    → first + n ≤ 2 ^ 21
    → add_blocks n a ≡ some (block_names first n)
unfolding add_blocks
add_blocks-names zero first a v h = refl
add_blocks-names (suc n) first a v h =
    let o = add_block_to-Names first a v (omega arith) in
    ap (then_name (add_blocks n)) o.given
    ∙ ap (put_name (block_name first))
        (add_blocks-names n (first + 1) o.after o.valid (omega arith))

-- The names that the pool takes for those of blocks are the names that a new arena gives its blocks, in
-- their order, for all of the 2 ^ 21 blocks that it can have.
pub add_blocks-block_names :
    (n : ℕ) → n ≤ 2 ^ 21 → add_blocks n new_global_group ≡ some (block_names 0 n)
add_blocks-block_names n h =
    add_blocks-names n 0 new_global_group
      (record { place = refl; groups = omega arith; last = omega arith; unused = λ g k. refl })
      (omega arith)
