-- ===== src/ObjectPool/Counts.antt =====
-- How often a number stands in lists, and in the lists of a row.
use p_base.Base.{
  ◌^◌, ℕ, zero, suc, ◌+◌, ◌≤◌, ◌<◌, ◌≡◌, ◌≢◌, refl, sym, ap₂, arith, Bool-cases, inl, inr, ◌==◌,
  if◌then◌else◌, Option, none, some, List, [], ◌∷◌,
}
use p_base.ObjectPool.{group_key, push, push_next, rest_of_block}

abbrev pub count : ℕ → List ℕ → ℕ
count x [] = 0
count x (y ∷ ys) = let rest = count x ys in if y == x then suc rest else rest

-- How often group `g` is named on a stack, and by a thread.
abbrev pub count_key : ℕ → List ℕ → ℕ
count_key g [] = 0
count_key g (id ∷ ids) = let rest = count_key g ids in if group_key id == g then suc rest else rest

abbrev pub uses : ℕ → Option ℕ → ℕ
uses g none = 0
uses g (some id) = if group_key id == g then 1 else 0

abbrev pub sum : ℕ → (ℕ → ℕ) → ℕ
sum zero f = 0
sum (suc n) f = sum n f + f n

pub sum-ext : (n : ℕ) (f g : ℕ → ℕ) → ((j : ℕ) → j < n → f j ≡ g j) → sum n f ≡ sum n g
sum-ext zero f g h = refl
sum-ext (suc n) f g h =
    ap₂ (λ a b. a + b) (sum-ext n f g (λ j k. h j (omega arith))) (h n (omega arith))

-- A row that differs in one place.
pub sum-change :
    (n k : ℕ) (f g : ℕ → ℕ) → k < n → ((j : ℕ) → j ≢ k → f j ≡ g j) → sum n f + g k ≡ sum n g + f k
sum-change zero k f g h e = absurd (omega arith)
sum-change (suc n) k f g h e = elim (Bool-cases (k == n)) [
  | inl b ↦
      let p : k ≡ n = ground arith in
      let rest = sum-ext n f g (λ j l. e j (omega arith)) in rw p (omega (arith, rest))
  | inr b ↦
      let p : k ≢ n = ground arith in
      omega (arith, sum-change n k f g (omega arith) e, e n (λ q. p (sym q)))
]

pub sum_nothing : (n m : ℕ) (f : ℕ → ℕ) → ((j : ℕ) → n ≤ j → f j ≡ 0) → sum (m + n) f ≡ sum n f
sum_nothing n zero f h = let e : 0 + n ≡ n = omega arith in rw e refl
sum_nothing n (suc m) f h =
    let e : suc m + n ≡ suc (m + n) = omega arith in
    rw e (omega (arith, sum_nothing n m f h, h (m + n) (omega arith)))

pub sum-above : (n k : ℕ) (f : ℕ → ℕ) → k < n → f k ≤ sum n f
sum-above zero k f h = absurd (omega arith)
sum-above (suc n) k f h = elim (Bool-cases (k == n)) [
  | inl b ↦ let p : k ≡ n = ground arith in rw p (omega arith)
  | inr b ↦ let p : k ≢ n = ground arith in omega (arith, sum-above n k f (omega arith))
]

-- The names behind the first of a block.
pub count-rest_of_block :
    (x n id : ℕ)
    → (count x (rest_of_block n id) ≤ 1)
      × ((id + n < x) → count x (rest_of_block n id) ≡ 0)
      × (x ≤ id → count x (rest_of_block n id) ≡ 0)
unfolding rest_of_block
count-rest_of_block x zero id = (omega arith, λ h. refl, λ h. refl)
count-rest_of_block x (suc n) id =
    let (a, b, c) = count-rest_of_block x n id in
    (ground (arith, a, b), λ h. ground (arith, b), λ h. ground (arith, c))

-- The names that are pushed one after the other.
pub count-push_next :
    (g n id : ℕ) (stack : List ℕ)
    → id + n < 2 ^ 32
    → (count_key g (push_next n id stack) ≤ count_key g stack + 1)
      × (g ≤ id → count_key g (push_next n id stack) ≡ count_key g stack)
      × (id + n < g → count_key g (push_next n id stack) ≡ count_key g stack)
unfolding push_next
count-push_next g zero id stack h = (omega arith, λ k. refl, λ k. refl)
count-push_next g (suc n) id stack h =
    let (a, b, c) = count-push_next g n (id + 1) (push (id + 1) stack) (omega arith) in
    (ground (arith, a, b), λ k. ground (arith, b), λ k. ground (arith, c))

pub sum_zero : (n : ℕ) → sum n (λ _. 0) ≡ 0
sum_zero zero = refl
sum_zero (suc n) = omega (arith, sum_zero n)
