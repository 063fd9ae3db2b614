-- ===== src/ZBuffer/Ref/Room.antt =====
-- `acquire_block_ref_array` of an array whose bytes fit into a block: they have room there.
use p_base.Base.{ℕ, ◌≤◌, ◌≡◌, some, ◌⊎◌, add32, add64}
use p_base.ZBuffer.Block.{Block, Memory, left_space, new_block}
use p_base.ZBuffer.Ref.{BlockRef, acquire_block_ref_array}

-- `need` bytes are taken at the old offset of a block, where it has room for them; the block gets one
-- reference more, and no block's bytes change. The block was there, or it is a new and empty one.
pub record Reserves (need : ℕ) (m : Memory) (space : BlockRef) (m' : Memory) : Type 0 where
  pub id : ℕ
  pub before : Block
  pub origin :
      (m.blocks id ≡ some before) ⊎ ((id ≡ m.next_id) × (before.ref_num ≡ 1) × (before.offset ≡ 0))
  pub block : space.block ≡ some id
  pub start : space.offset ≡ before.offset
  pub room : need ≤ left_space before
  pub length : space.length ≡ need
  pub after :
      m'.blocks id
      ≡ some (record before { ref_num = add64 before.ref_num 1; offset = add32 before.offset need })
  pub same_bytes : m'.bytes ≡ m.bytes

-- What `take_space` does in block `id`.
record Taken (need id : ℕ) (b : Block) (m : Memory) (space : BlockRef) (m' : Memory) : Type 0 where
  block : space.block ≡ some id
  start : space.offset ≡ b.offset
  length : space.length ≡ need
  after :
      m'.blocks id ≡ some (record b { ref_num = add64 b.ref_num 1; offset = add32 b.offset need })
  same_bytes : m'.bytes ≡ m.bytes

added : ℕ → Memory → Block
added size m = record (new_block size) { next = m.head }

Gets : ℕ → Memory → ℕ → Type 0
Gets size m need =
    (space : BlockRef) × (m' : Memory) × (acquire_block_ref_array size m ≡ some (space, m'))
    × Reserves need m space m'
