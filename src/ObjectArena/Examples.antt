-- ===== src/ObjectArena/Examples.antt =====
-- The theorem on names in an arena with one block, and with a full group.
use p_base.Base.{refl, arith, inl}
use p_base.ObjectArena.{new_global_group, add_block_to}
use p_base.ObjectArena.Names.{Adds, IsArena, add_block_to-Adds}

new_global_group-IsArena : IsArena new_global_group
new_global_group-IsArena = record {
  some_group = omega arith;
  few_groups = omega arith;
  fits = λ g. omega arith;
  unused = λ g h. refl;
  empty = λ g n h. refl;
}

add_block_to-Adds_example : Adds 5 new_global_group (add_block_to new_global_group)
add_block_to-Adds_example =
    add_block_to-Adds 5 new_global_group new_global_group-IsArena (inl (omega arith)) (omega arith)
