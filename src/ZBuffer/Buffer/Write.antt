-- ===== src/ZBuffer/Buffer/Write.antt =====
-- `append(const char *, size_t)`, which writes into the blocks of the cache, and the handing out of
-- a block's room to a caller, `acquire_block_ref` and `return_block_ref`: src/zbuffer.cpp.
use p_base.Base.{
  ℕ, zero, suc, ◌*◌, ◌/◌, ◌%◌, ◌^◌, Option, none, some, ltb, ◌==◌, if◌then◌else◌, ◌>>=◌, add32,
  true, List, [], ◌∷◌, length, take, drop, write,
}
use p_base.ZBuffer.Block.{Block, Memory, left_space, modify, inc_ref, Ptr}
use p_base.ZBuffer.Cache.{acquire_block, pop_front, push_front}
use p_base.ZBuffer.Ref.{BlockRef}
use p_base.ZBuffer.Buffer.{ZBuffer, append_ref_copy}

-- `(offset + 7) & ~0x7`
unfoldable pub round_up : ℕ → ℕ
round_up offset = add32 offset 7 / 8 * 8

-- How many of `count` characters go into block `b`. The difference is cut to a `uint32_t`.
unfoldable pub chunk_length : ℕ → Block → ℕ
unfolding left_space
chunk_length count b =
    let left = count % 2 ^ 32 in if ltb (left_space b) left then left_space b else left

-- `memcpy` into block `id`.
abbrev pub write_block : ℕ → ℕ → List ℕ → (ℕ → ℕ → ℕ) → ℕ → ℕ → ℕ
write_block id offset text bytes j = if j == id then write (bytes j) offset text else bytes j

-- The offset of the block goes behind the characters, and up to a multiple of 8.
unfoldable pub fill_block : ℕ → Block → List ℕ → Memory → Memory
unfolding round_up
fill_block id b text m =
    modify (some id) (λ c. record c { offset = round_up (add32 c.offset (length text)) })
      (record m { bytes = write_block id b.offset text m.bytes })

module _ (raw : BlockRef → ℕ → BlockRef) where
  -- One round of the loop: the characters that it wrote, and the buffer.
  unfoldable pub append_chunk : List ℕ → ZBuffer → Memory → Option (ℕ × ZBuffer × Memory)
  append_chunk text z m = do
    (id, m') ← acquire_block m
    b ← m'.blocks id
    let left = chunk_length (length text) b
    (z', m'') ←
        append_ref_copy raw (record { offset = b.offset; length = left; block = some id }) z
          (fill_block id b (take left text) m')
    some (left, z', m'')

  -- The loop, on fuel.
  unfoldable pub append_chars_loop : ℕ → List ℕ → ZBuffer → Memory → Option (ZBuffer × Memory)
  append_chars_loop fuel [] z m = some (z, m)
  append_chars_loop zero (x ∷ xs) z m = none
  append_chars_loop (suc fuel) (x ∷ xs) z m = append_chunk (x ∷ xs) z m >>= λ (left, z', m').
      append_chars_loop fuel (drop left (x ∷ xs)) z' m'

  -- A round writes a character at least, so as many rounds as characters are enough.
  unfoldable pub append_chars : List ℕ → ZBuffer → Memory → Option (ZBuffer × Memory)
  append_chars text z m = append_chars_loop (length text) text z m

-- The room of a block that the cache gives up, and its return with the characters of `r` in use.
unfoldable pub acquire_block_ref : Memory → Option (BlockRef × Memory)
unfolding pop_front left_space
acquire_block_ref m = do
  (id, m') ← pop_front m
  b ← m'.blocks id
  some (record { offset = b.offset; length = left_space b; block = some id }, m')

abbrev pub push_ptr : Ptr → Memory → Memory
push_ptr none m = record m { fault = true }
push_ptr (some id) m = push_front id m

unfoldable pub return_block_ref : BlockRef → Memory → Memory
unfolding push_front inc_ref
return_block_ref r m =
    push_ptr r.block
      (inc_ref r.block (modify r.block (λ b. record b { offset = add32 b.offset r.length }) m))
