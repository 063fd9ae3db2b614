-- ===== src/ZBuffer/Examples.antt =====
-- The theorems on `ZBuffer` at concrete memories and buffers, and runs of the operations.
use p_base.Base.{
  ◌⊎◌, ℕ, ◌+◌, ◌*◌, ◌%◌, ◌≤◌, ◌<◌, ◌≡◌, ◌≢◌, refl, false, true, ◌==◌, if◌then◌else◌, none, some,
  arith, [], ◌∷◌, ◌++◌, min, length, take, ◌⊎◌,
}
use p_base.ZBuffer.Block.{is_full, Block, Memory, set_block}
use p_base.ZBuffer.Ref.{BlockRef, BlockRefArray, null_ref, merge, ref_bytes, ref_at, copy_array}
use p_base.ZBuffer.Ref.Merge.{IsRef, merge-cases}
use p_base.ZBuffer.Ref.Ring.{IsRing}
use p_base.ZBuffer.Ref.Reserve.{IsListed}
use p_base.ZBuffer.Buffer.{ZBuffer, simple, append_ref_copy, append_ref_move}
use p_base.ZBuffer.Buffer.Contents.{contents, IsBuffer}
use p_base.ZBuffer.Buffer.Resize.{doubled, ref_at-copy_cases}
use p_base.ZBuffer.Buffer.ArrayAppend.{Appends, Agree}
use p_base.ZBuffer.Buffer.Append.{append_ref_copy-append_ref_move}
use p_base.ZBuffer.Buffer.Read.{popn, copy_front, simple_popn}
use p_base.ZBuffer.Buffer.Pops.{Pops, HasFront}
use p_base.ZBuffer.Buffer.Popn.{popn-Pops}
use p_base.ZBuffer.Cache.{acquire_block}
use p_base.ZBuffer.Buffer.Written.{HasRoom, AppendsChars, append_chars-AppendsChars}
use p_base.ZBuffer.Buffer.CopyFront.{copy_front_lem}

abbrev cached : Block
cached = record { next = none; ref_num = 1; offset = 0; capacity = 8168 }

-- One cached block, `0`; byte `i` of block `b` is `10 * b + i`.
abbrev memory : Memory
memory = record {
  blocks = set_block (λ _. none) 0 (some cached);
  bytes = λ b i. 10 * b + i;
  next_id = 3;
  head = some 0;
  block_number = 1;
  total_number = 1;
  total_memory = 8192;
  fault = false;
}

abbrev one : BlockRef
one = record { offset = 0; length = 3; block = some 1 }

abbrev two : BlockRef
two = record { offset = 4; length = 2; block = some 2 }

abbrev behind_one : BlockRef
behind_one = record { offset = 3; length = 2; block = some 1 }

abbrev raw : BlockRef → ℕ → BlockRef
raw space i = null_ref

abbrev both : ZBuffer
both = simple one two

memory-IsListed : IsListed memory
memory-IsListed = record { ids = 0 ∷ []; chain = (refl, cached, refl, refl); bounded = omega arith }

one-IsRef : IsRef one
one-IsRef = record { small = omega arith; null_empty = λ e. cc }

two-IsRef : IsRef two
two-IsRef = record { small = omega arith; null_empty = λ e. cc }

behind_one-IsRef : IsRef behind_one
behind_one-IsRef = record { small = omega arith; null_empty = λ e. cc }

both-IsBuffer : IsBuffer both
both-IsBuffer = (one-IsRef, two-IsRef, λ e. cc)

behind_one-is_live : behind_one.block ≢ none
behind_one-is_live e = cc

both-HasFront : HasFront both
both-HasFront e = absurd (omega (arith, e))

both-merges : merge one behind_one ≡ (true, record { offset = 0; length = 5; block = some 1 })
unfolding merge
both-merges = refl

both-popn : (popn both 4 memory).1 ≡ 10 ∷ 11 ∷ 12 ∷ 24 ∷ []
unfolding popn simple_popn
both-popn = refl

-- Two references are full, and a third one makes the buffer an array.
append_ref_copy-append_ref_move_example :
    Appends both behind_one memory (append_ref_copy raw behind_one both memory)
    × Appends both behind_one memory (append_ref_move raw behind_one both memory)
    × Agree behind_one
        (append_ref_copy raw behind_one both memory)
        (append_ref_move raw behind_one both memory)
append_ref_copy-append_ref_move_example =
    append_ref_copy-append_ref_move raw behind_one both memory both-IsBuffer memory-IsListed
      behind_one-IsRef behind_one-is_live

popn-Pops_example : Pops both 4 memory (popn both 4 memory)
popn-Pops_example = popn-Pops both 4 memory both-IsBuffer both-HasFront (omega arith)

cached-HasRoom : HasRoom cached
unfolding is_full
cached-HasRoom = record { open_block = refl; within = omega arith; small = omega arith }

acquired : acquire_block memory ≡ some (0, memory)
unfolding acquire_block is_full
acquired = refl

append_chars-AppendsChars_example : AppendsChars raw (b'a' ∷ b'b' ∷ b'c' ∷ []) both memory 0 0 8168
append_chars-AppendsChars_example =
    append_chars-AppendsChars raw b'a' (b'b' ∷ b'c' ∷ []) both memory memory 0 cached (omega arith)
      acquired refl cached-HasRoom both-IsBuffer memory-IsListed (λ e. cc, λ e. cc)

copy_front_lem_example :
    (copy_front memory.bytes both 4).1 ≡ take 4 (contents memory.bytes both)
    × ((copy_front memory.bytes both 4).0 ≡ min 4 (length (contents memory.bytes both)))
copy_front_lem_example = copy_front_lem memory.bytes both 4 both-IsBuffer

merge-cases_example :
    (merge one behind_one ≡ (false, one))
    ⊎ ((r' : BlockRef) × (merge one behind_one ≡ (true, r'))
        × IsRef r'
        × (r'.block ≡ one.block)
        × (r'.length ≡ one.length + behind_one.length)
        × ((bytes : ℕ → ℕ → ℕ)
            → ref_bytes bytes r' ≡ ref_bytes bytes one ++ ref_bytes bytes behind_one))
merge-cases_example = merge-cases one behind_one one-IsRef behind_one-IsRef

-- Rings of two references that begin at place `b`.
abbrev ring : ℕ → BlockRefArray
ring b = record { nbytes = 5; begin = b; cap_mask = 1; refs = λ i. if i == 0 then one else two }

ring-IsRing : (b : ℕ) → IsRing (ring b)
ring-IsRing b = record { log = 1; power = refl; small = omega arith }

ref_at-copy_cases_example :
    (((ring 1).begin % (2 * ((ring 1).cap_mask + 1)) ≡ 0)
      × ((i : ℕ)
          → i ≤ (ring 1).cap_mask
          → ref_at (copy_array (ring 1) (doubled (ring 1)) (raw one)) i ≡ ref_at (ring 1) i))
    ⊎ (((ring 1).begin % (2 * ((ring 1).cap_mask + 1)) ≢ 0)
        × ((i : ℕ) × (i ≤ (ring 1).cap_mask)
            × (j : ℕ) × ((ring 1).cap_mask < j)
            × (ref_at (copy_array (ring 1) (doubled (ring 1)) (raw one)) i ≡ raw one j)))
ref_at-copy_cases_example = ref_at-copy_cases (ring 1) (raw one) (ring-IsRing 1) (omega arith)
