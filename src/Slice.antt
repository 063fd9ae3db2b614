-- ===== src/Slice.antt =====
-- `Slice` of include/p/base/slice.h: a stretch of bytes, here the list of them.
pub mod Order
mod Examples
use p_base.Base.{
  ℕ, zero, suc, ◌+◌, Bool, true, false, ltb, ◌==◌, if◌then◌else◌, List, [], ◌∷◌, length,
}

-- The sign of the `int` that a comparison returns.
pub data Sign : Type 0 where
  less : Sign
  equal : Sign
  greater : Sign

-- `memcmp`: the first bytes that differ decide.
unfoldable pub memcmp : ℕ → List ℕ → List ℕ → Sign
memcmp zero xs ys = equal
memcmp (suc n) [] ys = equal
memcmp (suc n) (x ∷ xs) [] = equal
memcmp (suc n) (x ∷ xs) (y ∷ ys) =
    let rest = memcmp n xs ys in if x == y then rest else (if ltb x y then less else greater)

-- The lengths decide where the common bytes are the same.
abbrev pub by_size : Sign → ℕ → ℕ → Sign
by_size less a b = less
by_size greater a b = greater
by_size equal a b = if ltb a b then less else (if ltb b a then greater else equal)

unfoldable pub compare_slices : List ℕ → List ℕ → Sign
unfolding memcmp
compare_slices a b =
    let min_len = if ltb (length a) (length b) then length a else length b in
    by_size (memcmp min_len a b) (length a) (length b)
