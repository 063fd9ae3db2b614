-- ===== src/Convert/Room.antt =====
-- How much room the texts of numbers take.
use mathlib.Core.List.{reverse, reverse-cons}
use native.Mathlib.Decide.{dec_lt}
use native.Mathlib.Nat.{pow-zero, pow-suc, div-add-mod', mul-le-mul}
use p_base.Base.{
  ℕ, zero, suc, ◌+◌, ◌-◌, ◌/◌, ◌^◌, ◌≤◌, ◌<◌, ◌≡◌, refl, ap, ◌∙◌, arith, List, [], ◌∷◌, ◌++◌, ◌==◌,
  inl, inr, true, Bool-cases, length, length-append,
}
use p_base.Convert.{
  Value, pos, neg, max_numeric_size, get_or, signed_digits, upper_digits, lower_digits, emit,
  convert_integer, convert_hex_integer, convert_pointer,
}
use p_base.Convert.Digits.{
  magnitude, number_from, IsText, convert_integer-IsText, number-convert_hex,
}

smaller_pow : (base k n : ℕ) → n < base ^ suc k → n / base < base ^ k
smaller_pow base k n h = elim (dec_lt (n / base) (base ^ k)) [
  | yes p ↦ p
  | no p ↦ absurd (
      omega (
        arith,
        div-add-mod' n base,
        pow-suc base k,
        mul-le-mul {n₁ = base ^ k} {m₁ = base} {n₂ = n / base} {m₂ = base} (omega arith)
            (omega arith),
      ))
]

-- A number below `base ^ (k + 1)` has no more than `k + 1` digits, whatever fuel there is.
length-emit :
    (base fuel k n : ℕ) (digit : ℕ → ℕ) → n < base ^ suc k → length (emit digit base fuel n) ≤ suc k
unfolding emit
length-emit base zero k n digit h = omega arith
length-emit base (suc fuel) zero n digit h =
    let last : n / base == 0 ≡ true = ground (arith, smaller_pow base 0 n h, pow-zero base) in
    rw last (omega arith)
length-emit base (suc fuel) (suc k) n digit h = elim (Bool-cases (n / base == 0)) [
  | inl last ↦ rw last (omega arith)
  | inr more ↦
      rw more
        (omega (arith, length-emit base fuel k (n / base) digit (smaller_pow base (suc k) n h)))
]

length-reverse : (cs : List ℕ) → length (reverse cs) ≡ length cs
length-reverse [] = refl
length-reverse (c ∷ cs) =
    ap length (reverse-cons c cs)
    ∙ length-append (reverse cs) (c ∷ [])
    ∙ omega (arith, length-reverse cs)

length-text :
    (base fuel k n : ℕ) (digit : ℕ → ℕ) (tail : List ℕ)
    → n < base ^ suc k
    → length (reverse (emit digit base fuel n ++ tail)) ≤ suc k + length tail
length-text base fuel k n digit tail h = omega (
  arith,
  length-reverse (emit digit base fuel n ++ tail),
  length-append (emit digit base fuel n) tail,
  length-emit base fuel k n digit h,
)

length-text_only :
    (base fuel k n : ℕ) (digit : ℕ → ℕ)
    → n < base ^ suc k
    → length (reverse (emit digit base fuel n)) ≤ suc k
length-text_only base fuel k n digit h =
    omega (arith, length-reverse (emit digit base fuel n), length-emit base fuel k n digit h)

with_room : (a b c : ℕ) → b + 1 ≤ c → a ≤ b → a + 1 ≤ c
with_room a b c h k = omega arith

-- The decimal text of a value of 64 bits, with its sign and the `\0` behind it, fits the room that
-- is asked for a number.
pub length-convert_integer :
    (v : Value) → magnitude v < 2 ^ 64 → length (convert_integer v) + 1 ≤ max_numeric_size
unfolding convert_integer
length-convert_integer (pos n) h =
    with_room (length (convert_integer (pos n))) 20 24 (omega arith)
      (length-text_only 10 64 19 n (λ d. get_or signed_digits (9 + d) 0) (omega arith))
length-convert_integer (neg n) h =
    with_room (length (convert_integer (neg n))) 21 24 (omega arith)
      (length-text 10 64 19 n (λ d. get_or signed_digits (9 - d) 0) (b'-' ∷ []) (omega arith))

-- The text of a value in base sixteen takes 18 characters at most, and that of a pointer 16.
pub length-convert_hex :
    (v : ℕ) → v < 2 ^ 64 → (length (convert_hex_integer v) ≤ 18) × (length (convert_pointer v) ≤ 16)
unfolding convert_hex_integer convert_pointer
length-convert_hex v h = (
  length-text 16 64 15 v (λ d. get_or upper_digits d 0) (b'x' ∷ b'0' ∷ []) (omega arith),
  length-text_only 16 64 15 v (λ d. get_or lower_digits d 0) (omega arith),
)

-- The text of a value of 64 bits reads back as the value and has room, in all three forms. In
-- decimal there is a minus sign in front if it is negative, and the text with the terminator behind it
-- fits `max_numeric_size`; in base sixteen there is `0x` in front, with 18 characters at most; a
-- pointer's text has 16 at most.
pub convert_lem :
    (v : Value) (n : ℕ)
    → magnitude v < 2 ^ 64
    → n < 2 ^ 64
    → IsText v (convert_integer v)
      × (length (convert_integer v) + 1 ≤ max_numeric_size)
      × ((digits : List ℕ) × (convert_hex_integer n ≡ b'0' ∷ b'x' ∷ digits)
          × (number_from 16 0 digits ≡ n))
      × (length (convert_hex_integer n) ≤ 18)
      × (number_from 16 0 (convert_pointer n) ≡ n)
      × (length (convert_pointer n) ≤ 16)
convert_lem v n h k =
    let (hex, pointer) = number-convert_hex n k in
    let (hex_room, pointer_room) = length-convert_hex n k in
    (convert_integer-IsText v h, length-convert_integer v h, hex, hex_room, pointer, pointer_room)
