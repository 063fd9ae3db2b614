-- ===== src/Slice/Examples.antt =====
-- The order of slices at concrete slices.
use p_base.Base.{[], ◌∷◌}
use p_base.Slice.{compare_slices}
use p_base.Slice.Order.{Means, compare_slices-Means}

compare_slices-Means_example :
    Means
      (compare_slices (b'a' ∷ b'b' ∷ []) (b'a' ∷ b'b' ∷ b'c' ∷ []))
      (b'a' ∷ b'b' ∷ [])
      (b'a' ∷ b'b' ∷ b'c' ∷ [])
compare_slices-Means_example = compare_slices-Means (b'a' ∷ b'b' ∷ []) (b'a' ∷ b'b' ∷ b'c' ∷ [])
