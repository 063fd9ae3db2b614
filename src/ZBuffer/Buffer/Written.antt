-- ===== src/ZBuffer/Buffer/Written.antt =====
-- `append(const char *, size_t)`: the characters go to the end of the buffer, into room that no
-- reference of it uses.
use p_base.Base.{
  ◌>>=◌, ℕ, zero, suc, ◌+◌, ◌-◌, ◌^◌, ◌≤◌, ◌<◌, ◌≡◌, refl, ap, ap₂, ◌∙◌, subst, inl, inr, ◌⊎◌,
  false, Option, none, some, arith, List, [], ◌∷◌, ◌++◌, length, take, drop, length-take, ◌==◌,
  if◌then◌else◌, add32, min, Bool-cases, leb, drop-all,
}
use p_base.ZBuffer.Block.{Block, Memory, Ptr, left_space, is_full, set_block}
use p_base.ZBuffer.Cache.{acquire_block, acquire_loop, drop_head}
use p_base.ZBuffer.Ref.{BlockRef, ref_bytes}
use p_base.ZBuffer.Ref.Merge.{IsRef}
use p_base.ZBuffer.Ref.Reserve.{IsListed, Chain, bytes-dec_ref}
use p_base.ZBuffer.Buffer.{ZBuffer, simple, array}
use p_base.ZBuffer.Buffer.Contents.{contents, IsBuffer}
use p_base.ZBuffer.Buffer.ArrayAppend.{CanGrow}
use p_base.ZBuffer.Buffer.Append.{append_ref_copy-Appends}
use p_base.ZBuffer.Buffer.Below.{AreBelow, contents-write, written, untouched}
use p_base.ZBuffer.Buffer.Write.{
  round_up, chunk_length, write_block, fill_block, append_chunk, append_chars_loop, append_chars,
}

-- A round wrote `left` characters, as many as there is room for, and at least one of any; they are
-- at the end of the buffer, and all that changed lies in block `id` at `limit` or behind.
pub record Writes (text : List ℕ) (z : ZBuffer) (m : Memory) (id limit room : ℕ)
    (outcome : Option (ℕ × ZBuffer × Memory)) : Type 0 where
  pub left : ℕ
  pub after : ZBuffer
  pub memory : Memory
  pub result : outcome ≡ some (left, after, memory)
  pub counted : left ≡ min (length text) room
  pub valid : IsBuffer after
  pub joined : contents memory.bytes after ≡ contents m.bytes z ++ take left text
  pub others : (j i : ℕ) → (j ≡ id → i < limit) → memory.bytes j i ≡ m.bytes j i

-- A block that the cache gives: its offset is within it, and it has room.
pub record HasRoom (b : Block) : Type 0 where
  pub open_block : is_full b ≡ false
  pub within : b.offset ≤ b.capacity
  pub small : b.capacity < 2 ^ 31

chunk_length_lem :
    (count : ℕ) (b : Block)
    → HasRoom b
    → count < 2 ^ 32
    → chunk_length count b ≡ min count (b.capacity - b.offset)
unfolding chunk_length left_space
chunk_length_lem count b v h = ground (arith, v.within, v.small)

Chain-modify :
    (blocks : ℕ → Option Block) (id : ℕ) (b c : Block) (p : Ptr) (ids : List ℕ)
    → blocks id ≡ some b
    → c.next ≡ b.next
    → Chain blocks p ids
    → Chain (set_block blocks id (some c)) p ids
Chain-modify blocks id b c p [] e same h = h
Chain-modify blocks id b c p (j ∷ ids) e same (at, d, found, rest) = elim (Bool-cases (j == id)) [
  | inl q ↦
      let which : j ≡ id = ground arith in
      let next : d.next ≡ c.next = ground (arith, which, found, e, same) in
      (
        at,
        c,
        rw q refl,
        subst (λ (n : Ptr). Chain (set_block blocks id (some c)) n ids) (next)
            (Chain-modify blocks id b c d.next ids e same rest),
      )
  | inr q ↦ (at, d, rw q found, Chain-modify blocks id b c d.next ids e same rest)
]

filled : Block → ℕ → Block
filled b n = record b { offset = round_up (add32 b.offset n) }

next-filled : (b : Block) (n : ℕ) → (filled b n).next ≡ b.next
unfolding filled
next-filled b n = refl

-- The memory after the write.
fill_block_lem :
    (id : ℕ) (b : Block) (text : List ℕ) (m : Memory)
    → m.blocks id ≡ some b
    → fill_block id b text m ≡ record m {
      blocks = set_block m.blocks id (some (filled b (length text)));
      bytes = write_block id b.offset text m.bytes;
    }
unfolding fill_block filled
fill_block_lem id b text m e = rw e refl

CanGrow-fill :
    (z : ZBuffer) (id : ℕ) (b : Block) (text : List ℕ) (m : Memory)
    → m.blocks id ≡ some b
    → CanGrow z m
    → CanGrow z (fill_block id b text m)
CanGrow-fill z id b text m e h = rw (fill_block_lem id b text m e) (by_form z h)
  where
    listed :
        IsListed m
        → IsListed (record m {
          blocks = set_block m.blocks id (some (filled b (length text)));
          bytes = write_block id b.offset text m.bytes;
        })
    listed l = record {
      ids = l.ids;
      chain =
          Chain-modify m.blocks id b (filled b (length text)) m.head l.ids e
            (next-filled b (length text)) l.chain;
      bounded = l.bounded;
    }

    by_form :
        (y : ZBuffer)
        → CanGrow y m
        → CanGrow y (record m {
          blocks = set_block m.blocks id (some (filled b (length text)));
          bytes = write_block id b.offset text m.bytes;
        })
    by_form (simple f s) l = listed l
    by_form (array n a space) l = λ p. ((l p).0, listed (l p).1)

bytes-drop_head : (h : ℕ) (b : Block) (m : Memory) → (drop_head h b m).bytes ≡ m.bytes
unfolding drop_head
bytes-drop_head h b m = bytes-dec_ref (some h) m

option-cases {ℓ} : {A : Type ℓ} (x : Option A) → (x ≡ none) ⊎ ((a : A) × (x ≡ some a))
option-cases none = inl refl
option-cases (some a) = inr (a, refl)

bytes-acquire_loop :
    (fuel : ℕ) (m : Memory) (id : ℕ) (m' : Memory)
    → acquire_loop fuel m ≡ some (id, m')
    → m'.bytes ≡ m.bytes
unfolding acquire_loop
bytes-acquire_loop zero m id m' e = cc
bytes-acquire_loop (suc fuel) m id m' e = elim (option-cases m.head) [
  | inl q ↦ ground (arith, q, e)
  | inr (h, q) ↦ elim (option-cases (m.blocks h)) [
    | inl w ↦ absurd (ground (arith, q, w, e))
    | inr (b, w) ↦ elim (Bool-cases (is_full b)) [
      | inl f ↦
          bytes-acquire_loop fuel (drop_head h b m) id m' (ground (arith, q, w, f, e))
          ∙ bytes-drop_head h b m
      | inr f ↦ ground (arith, q, w, f, e)
    ]
  ]
]

bytes-acquire_block :
    (m : Memory) (id : ℕ) (m' : Memory) → acquire_block m ≡ some (id, m') → m'.bytes ≡ m.bytes
unfolding acquire_block
bytes-acquire_block m id m' e = bytes-acquire_loop (m.next_id + 1) m id m' e

-- The first round of `append` and what comes of it: the end where the block has room for all the
-- characters, and the rounds for the rest of them where it has not.
pub record AppendsChars (raw : BlockRef → ℕ → BlockRef) (text : List ℕ) (z : ZBuffer) (m : Memory)
    (id limit room : ℕ) : Type 0 where
  pub round : Writes text z m id limit room (append_chunk raw text z m)
  pub progress : 0 < round.left
  pub result : append_chars raw text z m ≡ (
      if leb (length text) room
      then some (round.after, round.memory)
      else append_chars_loop raw (length text - 1) (drop round.left text) round.after round.memory)

room_left : (b : Block) → HasRoom b → 0 < b.capacity - b.offset
unfolding is_full
room_left b v = ground (arith, v.open_block, v.within, v.small)

module _ (raw : BlockRef → ℕ → BlockRef) where
  -- One round of `append`, where the cache gives block `id` and no reference of the buffer reaches
  -- behind its offset: as many of the characters as there is room for are written at the end of the
  -- buffer, one at least, and no byte in use is changed.
  append_chunk-Writes :
      (text : List ℕ) (z : ZBuffer) (m m' : Memory) (id : ℕ) (b : Block)
      → length text < 2 ^ 32
      → acquire_block m ≡ some (id, m')
      → m'.blocks id ≡ some b
      → HasRoom b
      → IsBuffer z
      → CanGrow z m'
      → AreBelow id b.offset z
      → Writes text z m id b.offset (b.capacity - b.offset) (append_chunk raw text z m)
  unfolding append_chunk
  append_chunk-Writes text z m m' id b h got e v u grow below =
      let left = chunk_length (length text) b in
      let count = chunk_length_lem (length text) b v h in
      let n : length (take left text) ≡ left = omega (arith, length-take left text, count) in
      let r : BlockRef = record { offset = b.offset; length = left; block = some id } in
      let filled_m = fill_block id b (take left text) m' in
      let same : m'.bytes ≡ m.bytes = bytes-acquire_block m id m' got in
      let valid : IsRef r = record {
        small = omega (arith, count, v.within, v.small);
        null_empty = λ q. cc;
      } in
      let a =
        append_ref_copy-Appends raw r z filled_m u (CanGrow-fill z id b (take left text) m' e grow)
          valid (λ q. cc) in
      let bytes_eq : filled_m.bytes ≡ write_block id b.offset (take left text) m.bytes =
        ap (λ (k : Memory). k.bytes) (fill_block_lem id b (take left text) m' e)
        ∙ ap (λ f. write_block id b.offset (take left text) f) same in
      let old_bytes : contents filled_m.bytes z ≡ contents m.bytes z =
        ap (λ f. contents f z) bytes_eq
        ∙ contents-write id b.offset (take left text) m.bytes z below in
      let new_bytes : ref_bytes filled_m.bytes r ≡ take left text =
        ap (λ f. ref_bytes f r) bytes_eq ∙ written id b.offset left (take left text) m.bytes n in
      record {
        left = left;
        after = a.after;
        memory = a.memory;
        result = rw (got, ◌>>=◌, e, ◌>>=◌, a.result) refl;
        counted = count;
        valid = a.longer.valid;
        joined =
            ap (λ f. contents f a.after) a.same_bytes
            ∙ a.longer.joined filled_m.bytes
            ∙ ap₂ (λ x y. x ++ y) (old_bytes) (new_bytes);
        others = λ j i out.
            ap (λ f. f j i) (a.same_bytes ∙ bytes_eq)
            ∙ untouched id b.offset (take left text) m.bytes j i out;
      }

  -- `append` of characters, where the cache gives block `id` with room and no reference of the buffer
  -- reaches behind its offset: as many characters as there is room for, one at least, are written at
  -- the end of the buffer in one round, and no byte in use is changed; where all have room, `append`
  -- is done with that, and otherwise it goes on with the rest of them.
  pub append_chars-AppendsChars :
      (x : ℕ) (xs : List ℕ) (z : ZBuffer) (m m' : Memory) (id : ℕ) (b : Block)
      → length (x ∷ xs) < 2 ^ 32
      → acquire_block m ≡ some (id, m')
      → m'.blocks id ≡ some b
      → HasRoom b
      → IsBuffer z
      → CanGrow z m'
      → AreBelow id b.offset z
      → AppendsChars raw (x ∷ xs) z m id b.offset (b.capacity - b.offset)
  unfolding append_chars append_chars_loop
  append_chars-AppendsChars x xs z m m' id b h got e v u grow below =
      let w = append_chunk-Writes (x ∷ xs) z m m' id b h got e v u grow below in
      record {
        round = w;
        progress = omega (arith, w.counted, room_left b v);
        result = elim (Bool-cases (leb (length (x ∷ xs)) (b.capacity - b.offset))) [
          | inl fits ↦
              let all : drop w.left (x ∷ xs) ≡ [] =
                drop-all w.left (x ∷ xs) (ground (arith, w.counted)) in
              rw (w.result, ◌>>=◌, all, fits) refl
          | inr more ↦
              let e : suc (length xs) - 1 ≡ length xs = omega arith in
              rw (w.result, ◌>>=◌, more, e) refl
        ];
      }
