-- ===== src/ZBuffer/Buffer.antt =====
-- `class ZBuffer`: the operations that add references and bytes. The union of two references and
-- of an array is a type with two constructors; `array()` tells them apart by the sign of
-- `first_.offset`, and no offset into a block reaches 2 ^ 31.
pub mod Contents
pub mod Entries
pub mod ArrayAppend
pub mod ToArray
pub mod Append
pub mod Resize
pub mod Read
pub mod PopLoop
pub mod Pops
pub mod ArrayPopn
pub mod Popn
pub mod CopyFront
pub mod Write
pub mod Below
pub mod Written
use p_base.Base.{
  ℕ, zero, suc, ◌+◌, ◌-◌, ◌*◌, ◌/◌, ◌%◌, ◌^◌, Bool, true, false, Option, none, some, ltb, leb, ◌==◌,
  ◌&&◌, if◌then◌else◌, ◌>>=◌, add32, sub32, add64, sub64, List, [], ◌∷◌, ◌++◌, length, take, drop,
}
use p_base.ZBuffer.Block.{Ptr, Block, Memory, left_space, modify, inc_ref, dec_ref}
use p_base.ZBuffer.Cache.{acquire_block, pop_front, push_front}
use p_base.ZBuffer.Ref.{
  BlockRef, null_ref, merge, release, BlockRefArray, ref_at, set_ref_at, new_array, copy_array,
  reset_array, acquire_block_ref_array,
}

pub data ZBuffer : Type 0 where
  simple : BlockRef → BlockRef → ZBuffer
  array : ℕ → BlockRefArray → BlockRef → ZBuffer

abbrev pub empty_buffer : ZBuffer
empty_buffer = simple null_ref null_ref

unfoldable pub size : ZBuffer → ℕ
size (simple f s) = add32 f.length s.length
size (array n a space) = a.nbytes

unfoldable pub blockref_num : ZBuffer → ℕ
blockref_num (simple f s) = elim s.block [
  | none ↦ elim f.block [ none ↦ 0 | some _ ↦ 1 ]
  | some _ ↦ 1 + elim f.block [ none ↦ 0 | some _ ↦ 1 ]
]
blockref_num (array n a space) = add32 1 n

-- A reference is put into the ring while it is set up, if it has a block.
unfoldable pub place : BlockRef → ℕ × BlockRefArray → ℕ × BlockRefArray
unfolding set_ref_at
place r (n, a) = elim r.block [
  | none ↦ (n, a)
  | some _ ↦ (add32 n 1, record (set_ref_at a n r) { nbytes = add64 a.nbytes r.length })
]

-- `raw space i` is the entry `i` that the memory at `space` happens to hold when an array is put
-- there.
module _ (raw : BlockRef → ℕ → BlockRef) where
  unfoldable pub transfor_to_array :
      BlockRef → BlockRef → Memory → Option (ℕ × BlockRefArray × BlockRef × Memory)
  unfolding acquire_block_ref_array new_array place
  transfor_to_array f s m = do
    (space, m') ← acquire_block_ref_array 32 m
    let (n, a) = place s (place f (0, new_array 32 (raw space)))
    some (n, a, space, m')

  unfoldable pub array_resize :
      BlockRefArray → BlockRef → Memory → Option (BlockRefArray × BlockRef × Memory)
  unfolding acquire_block_ref_array copy_array dec_ref
  array_resize a first_ref m = do
    let array_size = add32 a.cap_mask 1 * 2 % 2 ^ 32
    (space, m') ← acquire_block_ref_array array_size m
    some (copy_array a array_size (raw space), space, dec_ref first_ref.block m')

  unfoldable pub make_room :
      ℕ → BlockRefArray → BlockRef → Memory → Option (BlockRefArray × BlockRef × Memory)
  unfolding array_resize
  make_room n a first_ref m =
      if ltb a.cap_mask n then array_resize a first_ref m else some (a, first_ref, m)

  -- `array_append_ref(BlockRef &&)`: the reference moves into the ring.
  unfoldable pub array_append_move :
      ℕ → BlockRefArray → BlockRef → BlockRef → Memory → Option (ZBuffer × Memory)
  array_append_move n a first_ref r m =
      let counted = record a { nbytes = add64 a.nbytes r.length } in
      let (merged, last) = merge (ref_at a (sub32 n 1)) r in
      if merged
      then some (array n (set_ref_at counted (sub32 n 1) last) first_ref, release r m)
      else do
        (a', space, m') ← make_room n counted first_ref m
        some (array (add32 n 1) (set_ref_at a' n r) space, m')

  -- `array_append_ref(const BlockRef &)`: the ring gets a reference of its own.
  unfoldable pub array_append_copy :
      ℕ → BlockRefArray → BlockRef → BlockRef → Memory → Option (ZBuffer × Memory)
  array_append_copy n a first_ref r m =
      let counted = record a { nbytes = add64 a.nbytes r.length } in
      let (merged, last) = merge (ref_at a (sub32 n 1)) r in
      if merged then some (array n (set_ref_at counted (sub32 n 1) last) first_ref, m) else do
        (a', space, m') ← make_room n counted first_ref m
        some (array (add32 n 1) (set_ref_at a' n r) space, inc_ref r.block m')

  unfoldable pub append_ref_copy : BlockRef → ZBuffer → Memory → Option (ZBuffer × Memory)
  append_ref_copy r (array n a first_ref) m = array_append_copy n a first_ref r m
  append_ref_copy r (simple f s) m = elim f.block [
    | none ↦ some (simple r s, inc_ref r.block m)
    | some _ ↦ elim s.block [
      | none ↦
          let (merged, f') = merge f r in
          if merged then some (simple f' s, m) else some (simple f r, inc_ref r.block m)
      | some _ ↦
          let (merged, s') = merge s r in
          if merged
          then some (simple f s', m)
          else do (n, a, space, m') ← transfor_to_array f s m; array_append_copy n a space r m'
    ]
  ]

  unfoldable pub append_ref_move : BlockRef → ZBuffer → Memory → Option (ZBuffer × Memory)
  append_ref_move r (array n a first_ref) m = array_append_move n a first_ref r m
  append_ref_move r (simple f s) m = elim f.block [
    | none ↦ some (simple r s, m)
    | some _ ↦ elim s.block [
      | none ↦
          let (merged, f') = merge f r in
          if merged then some (simple f' s, release r m) else some (simple f r, m)
      | some _ ↦
          let (merged, s') = merge s r in
          if merged
          then some (simple f s', release r m)
          else do (n, a, space, m') ← transfor_to_array f s m; array_append_move n a space r m'
    ]
  ]

  -- `append(const ZBuffer &)` of another buffer: the number that it returns, and the buffer.
  unfoldable pub append_copy_loop :
      ℕ → ℕ → BlockRefArray → ZBuffer → Memory → Option (ZBuffer × Memory)
  unfolding append_ref_copy ref_at
  append_copy_loop zero i a z m = some (z, m)
  append_copy_loop (suc left) i a z m =
      append_ref_copy (ref_at a i) z m >>= λ (z', m'). append_copy_loop left (i + 1) a z' m'

  unfoldable pub append_unless_empty :
      (BlockRef → ZBuffer → Memory → Option (ZBuffer × Memory))
      → (BlockRef → Memory → Memory)
      → BlockRef
      → ZBuffer
      → Memory
      → Option (ZBuffer × Memory)
  append_unless_empty append otherwise r z m =
      if r.length == 0 then some (z, otherwise r m) else append r z m

  unfoldable pub append_copy : ZBuffer → ZBuffer → Memory → Option (ℕ × ZBuffer × Memory)
  unfolding append_copy_loop append_unless_empty append_ref_copy
  append_copy (simple f s) z m = do
    (z', m') ← append_unless_empty append_ref_copy (λ _ k. k) f z m
    (z'', m'') ← append_unless_empty append_ref_copy (λ _ k. k) s z' m'
    some (0, z'', m'')
  append_copy (array n a first_ref) z m = do (z', m') ← append_copy_loop n 0 a z m; some (n, z', m')

  unfoldable pub append_move_loop :
      ℕ → ℕ → BlockRefArray → ZBuffer → Memory → Option (BlockRefArray × ZBuffer × Memory)
  unfolding append_ref_move ref_at set_ref_at
  append_move_loop zero i a z m = some (a, z, m)
  append_move_loop (suc left) i a z m = append_ref_move (ref_at a i) z m >>= λ (z', m').
      append_move_loop left (i + 1) (set_ref_at a i null_ref) z' m'

  -- `append(ZBuffer &&)`: the number that it returns, the emptied buffer, and the buffer.
  unfoldable pub append_move : ZBuffer → ZBuffer → Memory → Option (ℕ × ZBuffer × ZBuffer × Memory)
  unfolding append_move_loop append_unless_empty append_ref_move release reset_array
  append_move (simple f s) z m = do
    (z', m') ← append_unless_empty append_ref_move release f z m
    (z'', m'') ← append_unless_empty append_ref_move release s z' m'
    some (0, empty_buffer, z'', m'')
  append_move (array n a first_ref) z m = do
    (a', z', m') ← append_move_loop n 0 a z m
    some (n, array 0 (reset_array a') first_ref, z', m')
