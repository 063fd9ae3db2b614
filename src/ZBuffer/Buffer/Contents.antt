-- ===== src/ZBuffer/Buffer/Contents.antt =====
-- The abstract view of a buffer: the bytes that it stands for, in order. And its invariant.
use p_base.Base.{
  ℕ, suc, ◌+◌, ◌^◌, ◌%◌, ◌≤◌, ◌<◌, ◌≡◌, refl, none, arith, List, [], ◌++◌, length, length-append,
  sub32,
}
use p_base.ZBuffer.Ref.{BlockRef, BlockRefArray, ref_at, ref_bytes}
use p_base.ZBuffer.Ref.Merge.{IsRef, null_ref-IsRef, length-read_ref}
use p_base.ZBuffer.Ref.Ring.{IsRing, window}
use p_base.ZBuffer.Buffer.{ZBuffer, simple, array, size, empty_buffer}

abbrev pub contents : (ℕ → ℕ → ℕ) → ZBuffer → List ℕ
contents bytes (simple f s) = ref_bytes bytes f ++ ref_bytes bytes s
contents bytes (array n a space) = window bytes a 0 n

-- The `n` entries are references, and `nbytes` counts their bytes.
pub record IsFilled (n : ℕ) (a : BlockRefArray) : Type 0 where
  pub ring : IsRing a
  pub fits : n ≤ a.cap_mask + 1
  pub refs : (i : ℕ) → i < n → IsRef (ref_at a i)
  pub counted : (bytes : ℕ → ℕ → ℕ) → a.nbytes ≡ length (window bytes a 0 n) % 2 ^ 64

-- Before the first entry there is a null reference, which no other merges with, when the ring is
-- empty.
pub record IsArray (n : ℕ) (a : BlockRefArray) : Type 0 where
  pub filled : IsFilled n a
  pub open filled use *
  pub before : n ≡ 0 → (ref_at a (sub32 0 1)).block ≡ none

pub filled_suc : (k : ℕ) (a : BlockRefArray) → IsFilled (suc k) a → IsArray (suc k) a
filled_suc k a v = record { filled = v; before = λ e. absurd (omega arith) }

abbrev pub IsBuffer : ZBuffer → Type 0
IsBuffer (simple f s) = IsRef f × IsRef s × (f.block ≡ none → s.block ≡ none)
IsBuffer (array n a space) = IsArray n a

pub empty_buffer-IsBuffer : IsBuffer empty_buffer
empty_buffer-IsBuffer = (null_ref-IsRef, null_ref-IsRef, λ _. refl)

pub length-ref_bytes :
    (bytes : ℕ → ℕ → ℕ) (r : BlockRef) → IsRef r → length (ref_bytes bytes r) ≡ r.length
length-ref_bytes bytes r v = length-read_ref bytes r.block r.offset r.length v.null_empty

pub null-ref_bytes :
    (bytes : ℕ → ℕ → ℕ) (r : BlockRef) → IsRef r → r.block ≡ none → ref_bytes bytes r ≡ []
null-ref_bytes bytes r v e = rw e

-- `size()` is the number of bytes, as long as a `size_t` can count them.
size-length :
    (bytes : ℕ → ℕ → ℕ) (z : ZBuffer)
    → IsBuffer z
    → length (contents bytes z) < 2 ^ 64
    → size z ≡ length (contents bytes z)
unfolding size
size-length bytes (simple f s) (v, w, _) h = omega (
  arith,
  length-append (ref_bytes bytes f) (ref_bytes bytes s),
  length-ref_bytes bytes f v,
  length-ref_bytes bytes s w,
  v.small,
  w.small,
)
size-length bytes (array n a space) v h = omega (arith, v.counted bytes)
