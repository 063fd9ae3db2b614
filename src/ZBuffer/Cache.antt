-- ===== src/ZBuffer/Cache.antt =====
-- `ThreadLocalBlockCache`: the list of blocks with room that a thread keeps. A walk along the
-- list takes fuel; `none` means that the fuel ran out or that the list leads to a freed block.
use p_base.Base.{ℕ, zero, suc, ◌+◌, true, false, Option, none, some, if◌then◌else◌, add32, sub32}
use p_base.ZBuffer.Block.{
  Block, Memory, normal_block_size, is_full, create_block, link_front, dec_ref,
}

-- `++block_number_` and `--block_number_`
abbrev pub count_up : Memory → Memory
count_up m = record m { block_number = add32 m.block_number 1 }

abbrev pub count_down : Memory → Memory
count_down m = record m { block_number = sub32 m.block_number 1 }

-- A fresh normal block is counted; `acquire_block` makes it the head of the list as well.
unfoldable pub add_normal_block : Memory → ℕ × Memory
unfolding create_block
add_normal_block m = let (id, m') = create_block normal_block_size m in (id, count_up m')

-- The list goes on behind a full head `h`, which loses the reference that the list held.
unfoldable pub drop_head : ℕ → Block → Memory → Memory
unfolding dec_ref
drop_head h b m = count_down (record (dec_ref (some h) m) { head = b.next })

unfoldable pub acquire_loop : ℕ → Memory → Option (ℕ × Memory)
unfolding add_normal_block drop_head is_full
acquire_loop zero m = none
acquire_loop (suc fuel) m = elim m.head [
  | none ↦ let (id, m') = add_normal_block m in some (id, record m' { head = some id })
  | some h ↦ elim (m.blocks h) [
    | none ↦ none
    | some b ↦ elim (is_full b) [ false ↦ some (h, m) | true ↦ acquire_loop fuel (drop_head h b m) ]
  ]
]

-- A list visits a block once, so as many rounds as there are blocks, and one, are enough.
unfoldable pub acquire_block : Memory → Option (ℕ × Memory)
unfolding acquire_loop
acquire_block m = acquire_loop (m.next_id + 1) m

unfoldable pub pop_loop : ℕ → Memory → Option (ℕ × Memory)
unfolding add_normal_block dec_ref is_full
pop_loop zero m = none
pop_loop (suc fuel) m = elim m.head [
  | none ↦ some (add_normal_block m)
  | some h ↦ elim (m.blocks h) [
    | none ↦ none
    | some b ↦ elim (is_full b) [
      | false ↦ some (h, record m { head = b.next })
      | true ↦ pop_loop fuel (count_down (dec_ref (some h) (record m { head = b.next })))
    ]
  ]
]

unfoldable pub pop_front : Memory → Option (ℕ × Memory)
unfolding pop_loop
pop_front m = pop_loop (m.next_id + 1) m

unfoldable pub push_front : ℕ → Memory → Memory
unfolding is_full dec_ref link_front
push_front id m = elim (m.blocks id) [
  | none ↦ record m { fault = true }
  | some b ↦ if is_full b then dec_ref (some id) m else count_up (link_front id m)
]

-- `~ThreadLocalBlockCache`
unfoldable pub clear : ℕ → Memory → Option Memory
unfolding dec_ref
clear zero m = none
clear (suc fuel) m = elim m.head [
  | none ↦ some m
  | some h ↦ elim (m.blocks h) [
    | none ↦ none
    | some b ↦ clear fuel (dec_ref (some h) (record m { head = b.next }))
  ]
]
