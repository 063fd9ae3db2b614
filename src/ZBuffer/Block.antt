-- ===== src/ZBuffer/Block.antt =====
-- `ZBuffer::Block`, its reference count and its life cycle. A block is named by a number that
-- `malloc` gives out once; a block that was freed, and one not yet made, is `none`.
-- The byte that follows a header is kept apart from the header, in `bytes`.
use p_base.Base.{
  ℕ, ◌+◌, ◌*◌, ◌^◌, ◌%◌, Bool, true, ◌||◌, Option, none, some, ltb, leb, ◌==◌, if◌then◌else◌, add32,
  sub32, add64, sub64,
}

abbrev pub Ptr : Type 0
Ptr = Option ℕ

-- `ref_num` is the bit pattern of an `int64_t`.
pub record Block : Type 0 where
  pub next : Ptr
  pub ref_num : ℕ
  pub offset : ℕ
  pub capacity : ℕ

-- All that the operations of a thread share: the blocks, the cache `tls_block_cache` (`head`
-- and `block_number`), and the totals `g_block_number` and `g_block_memory`. `fault` is set by
-- an access through a null pointer or to a freed block, which the source leaves undefined.
pub record Memory : Type 0 where
  pub blocks : ℕ → Option Block
  pub bytes : ℕ → ℕ → ℕ
  pub next_id : ℕ
  pub head : Ptr
  pub block_number : ℕ
  pub total_number : ℕ
  pub total_memory : ℕ
  pub fault : Bool

abbrev pub header_size : ℕ
header_size = 24

abbrev pub normal_block_size : ℕ
normal_block_size = 8 * 1024

abbrev pub cached_per_thread : ℕ
cached_per_thread = 32

unfoldable pub is_full : Block → Bool
is_full b = leb b.capacity (add32 b.offset 7)

unfoldable pub left_space : Block → ℕ
left_space b = sub32 b.capacity b.offset

abbrev pub set_block : (ℕ → Option Block) → ℕ → Option Block → ℕ → Option Block
set_block f id b j = if j == id then b else f j

abbrev pub put_block : ℕ → Option Block → Memory → Memory
put_block id b m = record m { blocks = set_block m.blocks id b }

-- A write to the fields of `*p`.
abbrev pub modify : Ptr → (Block → Block) → Memory → Memory
modify none f m = record m { fault = true }
modify (some id) f m = elim (m.blocks id) [
  | none ↦ record m { fault = true }
  | some b ↦ put_block id (some (f b)) m
]

unfoldable pub inc_ref : Ptr → Memory → Memory
inc_ref p = modify p (λ b. record b { ref_num = add64 b.ref_num 1 })

-- The constructor takes the size as a `uint16_t`.
unfoldable pub new_block : ℕ → Block
new_block size = record {
  next = none;
  ref_num = 1;
  offset = 0;
  capacity = sub32 (size % 2 ^ 16) header_size;
}

unfoldable pub create_block : ℕ → Memory → ℕ × Memory
unfolding new_block
create_block size m = (
  m.next_id,
  record m {
    blocks = set_block m.blocks m.next_id (some (new_block size));
    next_id = m.next_id + 1;
    total_number = add64 m.total_number 1;
    total_memory = add64 m.total_memory (size % 2 ^ 16);
  },
)

unfoldable pub free_block : ℕ → Memory → Memory
free_block id m = elim (m.blocks id) [
  | none ↦ record m { fault = true }
  | some b ↦ record m {
    blocks = set_block m.blocks id none;
    total_number = sub64 m.total_number 1;
    total_memory = sub64 m.total_memory (add64 b.capacity header_size);
  }
]

-- `block->next = head_; head_ = block;`
unfoldable pub link_front : ℕ → Memory → Memory
link_front id m =
    let linked = modify (some id) (λ b. record b { next = m.head }) m in
    record linked { head = some id }

-- `ThreadLocalBlockCache::release_block`
unfoldable pub release_block : ℕ → Memory → Memory
unfolding inc_ref free_block link_front
release_block id m =
    if ltb m.block_number cached_per_thread
    then link_front id (inc_ref (some id) (record m { block_number = add32 m.block_number 1 }))
    else free_block id m

-- `fetch_sub(1) <= 1`, as signed numbers: the count was at most one.
unfoldable pub last_ref : ℕ → Bool
last_ref n = leb n 1 || leb (2 ^ 63) n

unfoldable pub dec_ref : Ptr → Memory → Memory
unfolding release_block last_ref
dec_ref none m = record m { fault = true }
dec_ref (some id) m = elim (m.blocks id) [
  | none ↦ record m { fault = true }
  | some b ↦
      let dropped = record b { ref_num = sub64 b.ref_num 1 } in
      if last_ref b.ref_num
      then release_block id (put_block id (some (record dropped { next = none; offset = 0 })) m)
      else put_block id (some dropped) m
]
