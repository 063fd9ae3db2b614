-- ===== src/Convert/Digits.antt =====
-- The texts of numbers, read back.
use mathlib.Core.List.{reverse, reverse-cons, reverse-append}
use native.Mathlib.Decide.{dec_lt}
use native.Mathlib.Nat.{div-add-mod', pow-suc, mul-le-mul, mod-lt}
use p_base.Base.{
  ℕ, zero, suc, ◌+◌, ◌-◌, ◌*◌, ◌/◌, ◌%◌, ◌^◌, ◌≤◌, ◌<◌, ◌≡◌, ◌≢◌, refl, ap, ap₂, ◌∙◌, arith, List,
  [], ◌∷◌, ◌++◌, ◌==◌, if◌then◌else◌, inl, inr, Bool, true, ◌&&◌, Bool-cases, leb,
}
use p_base.Convert.{
  Value, pos, neg, get_or, signed_digits, upper_digits, lower_digits, emit, convert_integer,
  convert_hex_integer, convert_pointer,
}

-- The value of the code of a digit, in any of the two cases.
unfoldable pub digit_value : ℕ → ℕ
digit_value c =
    if leb c b'9' then c - b'0' else (if leb c b'F' then c - b'A' + 10 else c - b'a' + 10)

-- The number that a text stands for, from its highest digit on, behind the value `acc`.
unfoldable pub number_from : ℕ → ℕ → List ℕ → ℕ
unfolding digit_value
number_from base acc [] = acc
number_from base acc (c ∷ cs) = number_from base (acc * base + digit_value c) cs

number_from-append :
    (base acc : ℕ) (xs ys : List ℕ)
    → number_from base acc (xs ++ ys) ≡ number_from base (number_from base acc xs) ys
unfolding number_from
number_from-append base acc [] ys = refl
number_from-append base acc (x ∷ xs) ys = number_from-append base (acc * base + digit_value x) xs ys

-- A digit of the base is written as a code that has its value.
abbrev IsDigit : ℕ → (ℕ → ℕ) → Type 0
IsDigit base digit = (d : ℕ) → d < base → digit_value (digit d) ≡ d

smaller : (base fuel n : ℕ) → 2 ≤ base → n < 2 ^ suc fuel → n / base < 2 ^ fuel
smaller base fuel n h k = elim (dec_lt (n / base) (2 ^ fuel)) [
  | yes p ↦ p
  | no p ↦ absurd (
      omega (
        arith,
        div-add-mod' n base,
        pow-suc 2 fuel,
        mul-le-mul {n₁ = 2 ^ fuel} {m₁ = 2} {n₂ = n / base} {m₂ = base} (omega arith) h,
      ))
]

last_digit : (base n : ℕ) → n / base ≡ 0 → n % base ≡ n
last_digit base n h = omega (arith, div-add-mod' n base, ap (λ q. q * base) h)

-- The lowest digit stands at the end of the text.
number-reverse :
    (base c : ℕ) (cs : List ℕ)
    → number_from base 0 (reverse (c ∷ cs)) ≡ number_from base 0 (reverse cs) * base + digit_value c
unfolding number_from
number-reverse base c cs =
    ap (number_from base 0) (reverse-cons c cs) ∙ number_from-append base 0 (reverse cs) (c ∷ [])

abbrev Reads : ℕ → ℕ → ℕ → (ℕ → ℕ) → Type 0
Reads base fuel n digit = number_from base 0 (reverse (emit digit base fuel n)) ≡ n

-- Where the digits above the lowest one are read back, so is the number.
Reads-suc :
    (base fuel n : ℕ) (digit : ℕ → ℕ)
    → 2 ≤ base
    → IsDigit base digit
    → (n / base ≢ 0 → Reads base fuel (n / base) digit)
    → Reads base (suc fuel) n digit
unfolding emit number_from
Reads-suc base fuel n digit h d higher = elim (Bool-cases (n / base == 0)) [
  | inl last ↦ rw last (
      number-reverse base (digit (n % base)) []
      ∙ omega (arith, d (n % base) (mod-lt n (omega arith)), last_digit base n (ground arith)))
  | inr more ↦ rw more (
      number-reverse base (digit (n % base)) (emit digit base fuel (n / base))
      ∙ ap₂ (λ q c. q * base + c) (higher (ground arith)) (d (n % base) (mod-lt n (omega arith)))
      ∙ div-add-mod' n base)
]

-- Fuel for as many digits as `n` has gives the digits of `n`.
number-emit :
    (base fuel n : ℕ) (digit : ℕ → ℕ)
    → 2 ≤ base
    → IsDigit base digit
    → n < 2 ^ suc fuel
    → Reads base (suc fuel) n digit
number-emit base zero n digit h d k =
    Reads-suc base zero n digit h d (λ ne. absurd (ne (omega (arith, smaller base 0 n h k))))
number-emit base (suc fuel) n digit h d k =
    Reads-suc base (suc fuel) n digit h d
      (λ ne. number-emit base fuel (n / base) digit h d (smaller base (suc fuel) n h k))

-- Whether all digits below `n` have a code with their value.
abbrev all_digits : ℕ → (ℕ → ℕ) → Bool
all_digits zero digit = true
all_digits (suc n) digit = digit_value (digit n) == n && all_digits n digit

all_digits-IsDigit : (n : ℕ) (digit : ℕ → ℕ) → all_digits n digit ≡ true → IsDigit n digit
all_digits-IsDigit zero digit e d h = absurd (omega arith)
all_digits-IsDigit (suc n) digit e d h = elim (dec_lt d n) [
  | yes p ↦ all_digits-IsDigit n digit (ground arith) d p
  | no p ↦ (let same : d ≡ n = omega arith in rw same (ground arith))
]

upper-IsDigit : IsDigit 16 (λ d. get_or upper_digits d 0)
unfolding digit_value
upper-IsDigit = all_digits-IsDigit 16 (λ d. get_or upper_digits d 0) refl

lower-IsDigit : IsDigit 16 (λ d. get_or lower_digits d 0)
unfolding digit_value
lower-IsDigit = all_digits-IsDigit 16 (λ d. get_or lower_digits d 0) refl

positive-IsDigit : IsDigit 10 (λ d. get_or signed_digits (9 + d) 0)
unfolding digit_value
positive-IsDigit = all_digits-IsDigit 10 (λ d. get_or signed_digits (9 + d) 0) refl

negative-IsDigit : IsDigit 10 (λ d. get_or signed_digits (9 - d) 0)
unfolding digit_value
negative-IsDigit = all_digits-IsDigit 10 (λ d. get_or signed_digits (9 - d) 0) refl

abbrev pub magnitude : Value → ℕ
magnitude (pos n) = n
magnitude (neg n) = n

-- A decimal text that stands for a value: the digits of its size, behind a sign if it is negative.
abbrev pub IsText : Value → List ℕ → Type 0
IsText (pos n) text = number_from 10 0 text ≡ n
IsText (neg n) text = (digits : List ℕ) × (text ≡ b'-' ∷ digits) × (number_from 10 0 digits ≡ n)

-- The decimal text of a value of 64 bits stands for the value.
pub convert_integer-IsText : (v : Value) → magnitude v < 2 ^ 64 → IsText v (convert_integer v)
unfolding convert_integer
convert_integer-IsText (pos n) h =
    number-emit 10 63 n (λ d. get_or signed_digits (9 + d) 0) (omega arith) positive-IsDigit h
convert_integer-IsText (neg n) h = (
  reverse (emit (λ d. get_or signed_digits (9 - d) 0) 10 64 n),
  reverse-append (emit (λ d. get_or signed_digits (9 - d) 0) 10 64 n) (b'-' ∷ []),
  number-emit 10 63 n (λ d. get_or signed_digits (9 - d) 0) (omega arith) negative-IsDigit h,
)

-- A pointer's text, read as a number in base sixteen, is the address.
number-convert_pointer :
    (address : ℕ) → address < 2 ^ 64 → number_from 16 0 (convert_pointer address) ≡ address
unfolding convert_pointer
number-convert_pointer address h =
    number-emit 16 63 address (λ d. get_or lower_digits d 0) (omega arith) lower-IsDigit h

-- The text of a value in base sixteen is `0x`, and digits that give the value back.
convert_hex_integer_lem :
    (v : ℕ)
    → v < 2 ^ 64
    → (digits : List ℕ) × (convert_hex_integer v ≡ b'0' ∷ b'x' ∷ digits)
      × (number_from 16 0 digits ≡ v)
unfolding convert_hex_integer
convert_hex_integer_lem v h = (
  reverse (emit (λ d. get_or upper_digits d 0) 16 64 v),
  reverse-append (emit (λ d. get_or upper_digits d 0) 16 64 v) (b'x' ∷ b'0' ∷ []),
  number-emit 16 63 v (λ d. get_or upper_digits d 0) (omega arith) upper-IsDigit h,
)

-- The text of a value of 64 bits in base sixteen is `0x` and digits that give the value back, and the
-- text of a pointer gives the address back.
pub number-convert_hex :
    (v : ℕ)
    → v < 2 ^ 64
    → ((digits : List ℕ) × (convert_hex_integer v ≡ b'0' ∷ b'x' ∷ digits)
        × (number_from 16 0 digits ≡ v))
      × (number_from 16 0 (convert_pointer v) ≡ v)
number-convert_hex v h = (convert_hex_integer_lem v h, number-convert_pointer v h)
