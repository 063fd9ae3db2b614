-- ===== src/FixedBuffer/Examples.antt =====
-- The theorems on fixed buffers at a buffer of eight characters.
use p_base.Base.{ℕ, ◌-◌, ◌≡◌, refl, arith, some, List, [], ◌∷◌, ◌++◌, take}
use p_base.FixedBuffer.{cur_place, avail, append, append_char, appendf, append_all}
use p_base.FixedBuffer.Bounds.{flatten, HasRoom, Cut, append_all-appends}

abbrev five : List ℕ
five = b'a' ∷ b'b' ∷ b'c' ∷ b'd' ∷ b'e' ∷ []

abbrev three : List ℕ
three = b'f' ∷ b'g' ∷ b'h' ∷ []

five-HasRoom : HasRoom 8 five
five-HasRoom = omega arith

two_fit : append 8 three five ≡ (2, five ++ b'f' ∷ b'g' ∷ [])
unfolding append avail
two_fit = refl

append_all-appends_example :
    Cut 8 three five (append 8 three five)
    × Cut 8 (b'f' ∷ []) five (append_char 8 b'f' five)
    × Cut 8 three five (appendf 8 (some three) five)
    × (append_all 8 (three ∷ three ∷ []) five
        ≡ take (cur_place 8 - 1) (five ++ flatten (three ∷ three ∷ [])))
append_all-appends_example = append_all-appends 8 b'f' three (three ∷ three ∷ []) five five-HasRoom
