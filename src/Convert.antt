-- ===== src/Convert.antt =====
-- include/p/base/utils.h and src/utils.cpp: numbers to text. A text is the list of its codes; the
-- `\0` behind it is not part of the list. The digits are written from the lowest on and reversed.
pub mod Digits
pub mod Room
mod Examples
use mathlib.Core.List.{reverse}
use p_base.Base.{
  ℕ, zero, suc, ◌+◌, ◌-◌, ◌*◌, ◌/◌, ◌%◌, ◌^◌, List, [], ◌∷◌, ◌++◌, ◌==◌, if◌then◌else◌,
}

abbrev pub max_numeric_size : ℕ
max_numeric_size = 24

abbrev pub get_or {ℓ} : {A : Type ℓ} → List A → ℕ → A → A
get_or [] i d = d
get_or (x ∷ xs) zero d = x
get_or (x ∷ xs) (suc i) d = get_or xs i d

-- A value of an integer type: its sign and its size. Division and remainder of C go towards
-- zero, so both are those of the size, with the sign of the value.
pub data Value : Type 0 where
  pos : ℕ → Value
  neg : ℕ → Value

-- "9876543210123456789"; `s_zero` points to the ninth place.
abbrev signed_digits : List ℕ
signed_digits =
    b'9' ∷ b'8' ∷ b'7' ∷ b'6' ∷ b'5' ∷ b'4' ∷ b'3' ∷ b'2' ∷ b'1' ∷ b'0' ∷ b'1' ∷ b'2' ∷ b'3' ∷ b'4'
    ∷ b'5' ∷ b'6' ∷ b'7' ∷ b'8' ∷ b'9' ∷ []

abbrev upper_digits : List ℕ
upper_digits =
    b'0' ∷ b'1' ∷ b'2' ∷ b'3' ∷ b'4' ∷ b'5' ∷ b'6' ∷ b'7' ∷ b'8' ∷ b'9' ∷ b'A' ∷ b'B' ∷ b'C' ∷ b'D'
    ∷ b'E' ∷ b'F' ∷ b'G' ∷ b'H' ∷ b'I' ∷ b'G' ∷ b'K' ∷ []

abbrev lower_digits : List ℕ
lower_digits =
    b'0' ∷ b'1' ∷ b'2' ∷ b'3' ∷ b'4' ∷ b'5' ∷ b'6' ∷ b'7' ∷ b'8' ∷ b'9' ∷ b'a' ∷ b'b' ∷ b'c' ∷ b'd'
    ∷ b'e' ∷ b'f' ∷ []

-- `do { *p++ = digit(i % base); i /= base; } while (i != 0);`, on fuel. A value of 64 bits has
-- no more than 64 digits in any base.
unfoldable pub emit : (ℕ → ℕ) → ℕ → ℕ → ℕ → List ℕ
emit digit base zero i = []
emit digit base (suc fuel) i =
    let rest = emit digit base fuel (i / base) in
    digit (i % base) ∷ (if i / base == 0 then [] else rest)

-- The place in the table is `s_zero[lsd]`, with `lsd` of the value's sign.
unfoldable pub convert_integer : Value → List ℕ
unfolding emit
convert_integer (pos n) = reverse (emit (λ d. get_or signed_digits (9 + d) 0) 10 64 n)
convert_integer (neg n) = reverse (emit (λ d. get_or signed_digits (9 - d) 0) 10 64 n ++ b'-' ∷ [])

unfoldable pub convert_hex_integer : ℕ → List ℕ
unfolding emit
convert_hex_integer v = reverse (emit (λ d. get_or upper_digits d 0) 16 64 v ++ b'x' ∷ b'0' ∷ [])

unfoldable pub convert_pointer : ℕ → List ℕ
unfolding emit
convert_pointer v = reverse (emit (λ d. get_or lower_digits d 0) 16 64 v)
