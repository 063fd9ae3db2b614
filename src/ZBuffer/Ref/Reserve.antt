-- ===== src/ZBuffer/Ref/Reserve.antt =====
-- `acquire_block_ref_array`: it finds room, and moves no byte that a buffer holds.
use p_base.Base.{
  ℕ, zero, suc, ◌+◌, ◌-◌, ◌^◌, ◌%◌, ◌≤◌, ◌<◌, ◌≡◌, ◌≢◌, refl, ◌∙◌, Option, none, some, arith, List,
  [], ◌∷◌, length, ◌⊎◌, inl, inr, ◌>>=◌, add32, leb, ltb, Bool-cases,
}
use p_base.ZBuffer.Block.{
  Ptr, Block, Memory, header_size, normal_block_size, left_space, modify, inc_ref, dec_ref,
  release_block, free_block, link_front, create_block, new_block,
}
use p_base.ZBuffer.Ref.{
  BlockRef, release, array_bytes, find_space, add_block, take_space, space_in,
  acquire_block_ref_array,
}

-- The list that starts at `p` visits the blocks `ids`, none of them freed, and ends.
abbrev pub Chain : (ℕ → Option Block) → Ptr → List ℕ → Type 0
Chain blocks p [] = p ≡ none
Chain blocks p (id ∷ ids) =
    (p ≡ some id) × (b : Block) × (blocks id ≡ some b) × Chain blocks b.next ids

-- The cache of the thread is such a list, and no longer than there are blocks.
pub record IsListed (m : Memory) : Type 0 where
  pub ids : List ℕ
  pub chain : Chain m.blocks m.head ids
  pub bounded : length ids ≤ m.next_id

abbrev pub Found : ℕ → Memory → Ptr → Type 0
Found need m q =
    (q ≡ none)
    ⊎ ((id : ℕ) × (b : Block) × (q ≡ some id) × (m.blocks id ≡ some b) × (need ≤ left_space b))

-- The search ends, at a block with room or at the end of the list.
pub find_space_lem :
    (fuel need : ℕ) (m : Memory) (p : Ptr) (ids : List ℕ)
    → length ids < fuel
    → Chain m.blocks p ids
    → (q : Ptr) × (find_space fuel need m p ≡ some q) × Found need m q
unfolding find_space
find_space_lem zero need m p ids h c = absurd (omega arith)
find_space_lem (suc fuel) need m p [] h c = (none, rw (c, find_space), inl refl)
find_space_lem (suc fuel) need m p (id ∷ ids) h (e, b, live, rest) =
    elim (Bool-cases (leb need (left_space b))) [
      | inl fits ↦ (some id, rw (e, find_space, live, fits), inr (id, b, refl, live, ground arith))
      | inr short ↦
          let (q, found, ok) = find_space_lem fuel need m b.next ids (omega arith) rest in
          (q, rw (e, find_space, live, short) found, ok)
    ]

pub bytes-inc_ref : (p : Ptr) (m : Memory) → (inc_ref p m).bytes ≡ m.bytes
unfolding inc_ref
bytes-inc_ref p m = ground arith

pub bytes-dec_ref : (p : Ptr) (m : Memory) → (dec_ref p m).bytes ≡ m.bytes
unfolding dec_ref release_block free_block link_front inc_ref
bytes-dec_ref none m = refl
bytes-dec_ref (some id) m = ground arith

pub bytes-release : (r : BlockRef) (m : Memory) → (release r m).bytes ≡ m.bytes
unfolding release
bytes-release r m = ground (arith, bytes-dec_ref r.block m)

-- A reservation succeeded, in some block, and the bytes of the blocks are as before.
pub record Reserved (need : ℕ) (m : Memory) (space : BlockRef) (m' : Memory) : Type 0 where
  pub same_bytes : m'.bytes ≡ m.bytes
  pub length : space.length ≡ need % 2 ^ 32
  pub live : space.block ≢ none

take_space_lem :
    (need id : ℕ) (m : Memory) (b : Block)
    → m.blocks id ≡ some b
    → (space : BlockRef) × (m' : Memory) × (take_space need id m ≡ some (space, m'))
      × Reserved need m space m'
unfolding take_space inc_ref
take_space_lem need id m b live = (
  record { offset = b.offset; length = need % 2 ^ 32; block = some id },
  modify (some id) (λ c. record c { offset = add32 c.offset need }) (inc_ref (some id) m),
  rw (live, take_space),
  record { same_bytes = ground arith; length = refl; live = λ e. cc },
)

add_block_lem :
    (size : ℕ) (m : Memory)
    → (b : Block) × ((add_block size m).1.blocks (add_block size m).0 ≡ some b)
      × ((add_block size m).1.bytes ≡ m.bytes)
unfolding add_block create_block link_front
add_block_lem size m = (record (new_block size) { next = m.head }, ground arith, ground arith)

space_in_lem :
    (need : ℕ) (m : Memory) (q : Ptr)
    → Found need m q
    → (space : BlockRef) × (m' : Memory) × (space_in need m q ≡ some (space, m'))
      × Reserved need m space m'
unfolding space_in
space_in_lem need m none ok =
    let (b, live, same) = add_block_lem normal_block_size m in
    let (id, m₁) = add_block normal_block_size m in
    let (space, m', e, r) = take_space_lem need id m₁ b live in
    (space, m', e, record { same_bytes = r.same_bytes ∙ same; length = r.length; live = r.live })
space_in_lem need m (some id) (inl e) = cc
space_in_lem need m (some id) (inr (j, b, e, live, fits)) =
    take_space_lem need id m b (ground arith)

-- A reservation for an array of any number of references succeeds.
pub acquire_lem :
    (size : ℕ) (m : Memory)
    → IsListed m
    → (space : BlockRef) × (m' : Memory) × (acquire_block_ref_array size m ≡ some (space, m'))
      × Reserved (array_bytes (size % 2 ^ 32)) m space m'
unfolding acquire_block_ref_array
acquire_lem size m v =
    let need = array_bytes (size % 2 ^ 32) in
    elim (Bool-cases (ltb need (normal_block_size - header_size))) [
      | inl small ↦
          let (q, found, ok) =
            find_space_lem (m.next_id + 1) need m m.head v.ids (omega (arith, v.bounded)) v.chain in
          let (space, m', e, r) = space_in_lem need m q ok in
          (space, m', rw (small, found, ◌>>=◌) e, r)
      | inr large ↦
          let size' = (need + header_size) % 2 ^ 32 in
          let (b, live, same) = add_block_lem size' m in
          let (space, m', e, r) =
            take_space_lem need (add_block size' m).0 (add_block size' m).1 b live in
          (
            space,
            m',
            rw large e,
            record { same_bytes = r.same_bytes ∙ same; length = r.length; live = r.live },
          )
    ]
