-- ===== src/Base/Bytes.antt =====
-- Stretches of memory that are read and written as lists of bytes.
use p_base.Base.Tests.{◌==◌, if◌then◌else◌}
use p_base.Base.Lists.{length, take, drop}
use Prim.Native.Nat.{ℕ, zero, suc, ◌+◌, ◌-◌, ◌≤◌, ◌<◌}
use mathlib.Core.Path.{◌≡◌, refl, ap, ap₂, ◌∙◌}
use mathlib.Core.List.{List, [], ◌∷◌, ◌++◌}
use native.Mathlib.Omega.{arith}

-- `n` bytes from place `i` on.
abbrev pub read : (ℕ → ℕ) → ℕ → ℕ → List ℕ
read f i zero = []
read f i (suc n) = f i ∷ read f (i + 1) n

-- `memcpy` of bytes to place `i`.
unfoldable pub write : (ℕ → ℕ) → ℕ → List ℕ → ℕ → ℕ
write f i [] j = f j
write f i (x ∷ xs) j = if j == i then x else write f (i + 1) xs j

pub length-read : (f : ℕ → ℕ) (i n : ℕ) → length (read f i n) ≡ n
length-read f i zero = refl
length-read f i (suc n) = ap suc (length-read f (i + 1) n)

pub read-add : (f : ℕ → ℕ) (i a b : ℕ) → read f i (a + b) ≡ read f i a ++ read f (i + a) b
read-add f i zero b = ap₂ (read f) (omega arith) (omega arith)
read-add f i (suc a) b =
    let e : suc a + b ≡ suc (a + b) = omega arith in
    let e' : i + suc a ≡ i + 1 + a = omega arith in
    rw (e, e') (ap (λ l. f i ∷ l) (read-add f (i + 1) a b))

pub take-read : (f : ℕ → ℕ) (i n k : ℕ) → k ≤ n → take k (read f i n) ≡ read f i k
take-read f i n zero h = refl
take-read f i zero (suc k) h = absurd (omega arith)
take-read f i (suc n) (suc k) h = ap (λ l. f i ∷ l) (take-read f (i + 1) n k (omega arith))

pub drop-read : (f : ℕ → ℕ) (i n k : ℕ) → k ≤ n → drop k (read f i n) ≡ read f (i + k) (n - k)
drop-read f i n zero h = ap₂ (read f) (omega arith) (omega arith)
drop-read f i zero (suc k) h = absurd (omega arith)
drop-read f i (suc n) (suc k) h =
    drop-read f (i + 1) n k (omega arith) ∙ ap₂ (read f) (omega arith) (omega arith)

pub write-below : (f : ℕ → ℕ) (i : ℕ) (xs : List ℕ) (j : ℕ) → j < i → write f i xs j ≡ f j
unfolding write
write-below f i [] j h = refl
write-below f i (x ∷ xs) j h = ground (arith, write-below f (i + 1) xs j)

pub write-above :
    (f : ℕ → ℕ) (i : ℕ) (xs : List ℕ) (j : ℕ) → i + length xs ≤ j → write f i xs j ≡ f j
unfolding write
write-above f i [] j h = refl
write-above f i (x ∷ xs) j h = ground (arith, write-above f (i + 1) xs j)

pub read-ext :
    (f g : ℕ → ℕ) (i n : ℕ) → ((j : ℕ) → i ≤ j → j < i + n → f j ≡ g j) → read f i n ≡ read g i n
read-ext f g i zero h = refl
read-ext f g i (suc n) h =
    ap₂ (λ x l. x ∷ l) (h i (omega arith) (omega arith))
      (read-ext f g (i + 1) n (λ j p q. h j (omega arith) (omega arith)))

-- What is written is read back, and what lies before it is as it was.
pub read-write_self : (f : ℕ → ℕ) (i : ℕ) (xs : List ℕ) → read (write f i xs) i (length xs) ≡ xs
unfolding write
read-write_self f i [] = refl
read-write_self f i (x ∷ xs) =
    ap₂ (λ y l. y ∷ l) (ground arith)
      (read-ext (write f i (x ∷ xs)) (write f (i + 1) xs) (i + 1) (length xs)
          (λ j p q. ground arith)
        ∙ read-write_self f (i + 1) xs)

pub read-write_below :
    (f : ℕ → ℕ) (i : ℕ) (xs : List ℕ) (k n : ℕ) → k + n ≤ i → read (write f i xs) k n ≡ read f k n
read-write_below f i xs k n h =
    read-ext (write f i xs) f k n (λ j p q. write-below f i xs j (omega arith))

pub read-write_above :
    (f : ℕ → ℕ) (i : ℕ) (xs : List ℕ) (k n : ℕ)
    → i + length xs ≤ k
    → read (write f i xs) k n ≡ read f k n
read-write_above f i xs k n h =
    read-ext (write f i xs) f k n (λ j p q. write-above f i xs j (omega arith))
