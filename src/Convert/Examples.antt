-- ===== src/Convert/Examples.antt =====
-- The theorems on texts of numbers at concrete numbers, and runs of the conversions.
use p_base.Base.{ℕ, ◌+◌, ◌≤◌, ◌≡◌, refl, arith, List, [], ◌∷◌, length}
use p_base.Convert.{
  neg, max_numeric_size, emit, convert_integer, convert_hex_integer, convert_pointer,
}
use p_base.Convert.Digits.{number_from, IsText}
use p_base.Convert.Room.{convert_lem}

minus_forty_two : convert_integer (neg 42) ≡ b'-' ∷ b'4' ∷ b'2' ∷ []
unfolding convert_integer emit
minus_forty_two = refl

convert_lem_example :
    IsText (neg 42) (convert_integer (neg 42))
    × (length (convert_integer (neg 42)) + 1 ≤ max_numeric_size)
    × ((digits : List ℕ) × (convert_hex_integer 255 ≡ b'0' ∷ b'x' ∷ digits)
        × (number_from 16 0 digits ≡ 255))
    × (length (convert_hex_integer 255) ≤ 18)
    × (number_from 16 0 (convert_pointer 255) ≡ 255)
    × (length (convert_pointer 255) ≤ 16)
convert_lem_example = convert_lem (neg 42) 255 (omega arith) (omega arith)
