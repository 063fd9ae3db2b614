-- ===== src/ZBuffer/Ref.antt =====
-- `ZBuffer::BlockRef`, a stretch of a block's bytes, and `ZBuffer::BlockRefArray`, a ring of
-- references with room for a power of two of them.
pub mod Merge
pub mod Ring
pub mod Reserve
pub mod Room
use p_base.Base.{
  ℕ, zero, suc, ◌+◌, ◌-◌, ◌*◌, ◌/◌, ◌%◌, ◌^◌, Bool, true, false, Option, none, some, ltb, leb, ◌==◌,
  ◌&&◌, if◌then◌else◌, ◌>>=◌, add32, sub32, List, [], ◌∷◌, read,
}
use p_base.ZBuffer.Block.{
  Ptr, Memory, header_size, normal_block_size, left_space, modify, inc_ref, create_block,
  link_front, dec_ref,
}
use p_base.ZBuffer.Cache.{count_up}

pub record BlockRef : Type 0 where
  pub offset : ℕ
  pub length : ℕ
  pub block : Ptr

-- What `reset` leaves.
abbrev pub null_ref : BlockRef
null_ref = record { offset = 0; length = 0; block = none }

abbrev pub same_block : Ptr → Ptr → Bool
same_block none none = true
same_block none (some b) = false
same_block (some a) none = false
same_block (some a) (some b) = a == b

-- `merge` extends the reference where `rhs` goes on right behind it.
unfoldable pub merge : BlockRef → BlockRef → Bool × BlockRef
merge r rhs =
    if same_block r.block rhs.block && add32 r.offset r.length == rhs.offset
    then (true, record r { length = add32 r.length rhs.length })
    else (false, r)

-- `release`: the reference itself is `null_ref` afterwards.
unfoldable pub release : BlockRef → Memory → Memory
unfolding dec_ref
release r m = elim r.block [ none ↦ m | some id ↦ dec_ref (some id) m ]

-- `memcpy` of `n` bytes from `begin()`, where the blocks hold `bytes`.
abbrev pub read_ptr : (ℕ → ℕ → ℕ) → Ptr → ℕ → ℕ → List ℕ
read_ptr bytes none i n = []
read_ptr bytes (some id) i n = read (bytes id) i n

abbrev pub read_ref : (ℕ → ℕ → ℕ) → BlockRef → ℕ → List ℕ
read_ref bytes r n = read_ptr bytes r.block r.offset n

-- All the bytes that a reference stands for.
abbrev pub ref_bytes : (ℕ → ℕ → ℕ) → BlockRef → List ℕ
ref_bytes bytes r = read_ref bytes r r.length

-- `refs` is the memory behind the header; the entries outside the ring are whatever it holds.
pub record BlockRefArray : Type 0 where
  pub nbytes : ℕ
  pub begin : ℕ
  pub cap_mask : ℕ
  pub refs : ℕ → BlockRef

unfoldable pub array_capacity : BlockRefArray → ℕ
array_capacity a = add32 a.cap_mask 1

-- `(begin + i) & cap_mask`. The mask is a power of two less one, so the `&` is a remainder.
unfoldable pub ring_index : BlockRefArray → ℕ → ℕ
ring_index a i = add32 a.begin i % (a.cap_mask + 1)

unfoldable pub ref_at : BlockRefArray → ℕ → BlockRef
unfolding ring_index
ref_at a i = a.refs (ring_index a i)

unfoldable pub set_ref_at : BlockRefArray → ℕ → BlockRef → BlockRefArray
unfolding ring_index
set_ref_at a i r = record a { refs = λ j. if j == ring_index a i then r else a.refs j }

-- `raw` is what the memory at the place of the array held before.
unfoldable pub new_array : ℕ → (ℕ → BlockRef) → BlockRefArray
new_array cap raw = record { nbytes = 0; begin = 0; cap_mask = sub32 cap 1; refs = raw }

unfoldable pub copy_array : BlockRefArray → ℕ → (ℕ → BlockRef) → BlockRefArray
copy_array old cap raw = record {
  nbytes = old.nbytes;
  begin = old.begin;
  cap_mask = sub32 cap 1;
  refs = λ i. if leb i old.cap_mask then old.refs i else raw i;
}

unfoldable pub reset_array : BlockRefArray → BlockRefArray
reset_array a = record a { nbytes = 0; begin = 0 }

-- The bytes that an array of `ref_size` entries takes: its header and one entry more, so that
-- the start can be moved up to a multiple of 16.
abbrev pub array_bytes : ℕ → ℕ
array_bytes ref_size = ref_size * 16 + (16 + 16)

-- The address of the array in a block whose bytes start at `start`: rounded up to 16.
unfoldable pub array_address : ℕ → ℕ → ℕ
array_address start offset = (start + offset + (16 - 1)) / 16 * 16

-- The first block along the list with room for `need` bytes, `some none` where there is none.
unfoldable pub find_space : ℕ → ℕ → Memory → Ptr → Option Ptr
unfolding left_space
find_space zero need m p = none
find_space (suc fuel) need m none = some none
find_space (suc fuel) need m (some id) = elim (m.blocks id) [
  | none ↦ none
  | some b ↦ elim (leb need (left_space b)) [
    | true ↦ some (some id)
    | false ↦ find_space fuel need m b.next
  ]
]

-- A new block of `size` bytes at the front of the list.
unfoldable pub add_block : ℕ → Memory → ℕ × Memory
unfolding create_block link_front
add_block size m = let (id, m') = create_block size m in (id, count_up (link_front id m'))

-- Reserve the bytes of the array in block `id`, and take a reference to them.
unfoldable pub take_space : ℕ → ℕ → Memory → Option (BlockRef × Memory)
unfolding inc_ref
take_space need id m = elim (m.blocks id) [
  | none ↦ none
  | some b ↦ some (
    record { offset = b.offset; length = need % 2 ^ 32; block = some id },
    modify (some id) (λ c. record c { offset = add32 c.offset need }) (inc_ref (some id) m),
  )
]

unfoldable pub space_in : ℕ → Memory → Ptr → Option (BlockRef × Memory)
unfolding add_block take_space
space_in need m (some id) = take_space need id m
space_in need m none = let (id, m') = add_block normal_block_size m in take_space need id m'

-- `acquire_block_ref_array`; `ref_size` is a `uint32_t`.
unfoldable pub acquire_block_ref_array : ℕ → Memory → Option (BlockRef × Memory)
unfolding find_space add_block take_space space_in
acquire_block_ref_array ref_size m =
    let need = array_bytes (ref_size % 2 ^ 32) in
    if ltb need (normal_block_size - header_size)
    then (find_space (m.next_id + 1) need m m.head >>= space_in need m)
    else (let (id, m') = add_block ((need + header_size) % 2 ^ 32) m in take_space need id m')
