-- ===== src/Slice/Order.antt =====
-- The order of slices, include/p/base/slice.h.
use p_base.Base.{
  ℕ, suc, ◌<◌, ◌≡◌, ◌⊎◌, inl, inr, refl, ap, ◌∙◌, arith, Bool, subst, Bool-cases, true, false, ltb,
  ◌==◌, if◌then◌else◌, List, [], ◌∷◌, length,
}
use p_base.Slice.{Sign, less, equal, greater, memcmp, by_size, compare_slices}

-- `xs` comes first: it ends where `ys` goes on, or has the smaller byte where they part.
abbrev pub IsBefore : List ℕ → List ℕ → Type 0
IsBefore [] [] = ⊥
IsBefore [] (y ∷ ys) = Unit
IsBefore (x ∷ xs) [] = ⊥
IsBefore (x ∷ xs) (y ∷ ys) = (x < y) ⊎ ((x ≡ y) × IsBefore xs ys)

-- What each sign means.
abbrev pub Means : Sign → List ℕ → List ℕ → Type 0
Means less xs ys = IsBefore xs ys
Means equal xs ys = xs ≡ ys
Means greater xs ys = IsBefore ys xs

by_size-suc : (s : Sign) (a b : ℕ) → by_size s (suc a) (suc b) ≡ by_size s a b
by_size-suc less a b = refl
by_size-suc greater a b = refl
by_size-suc equal a b = ground arith

Means-same : (s : Sign) (x : ℕ) (xs ys : List ℕ) → Means s xs ys → Means s (x ∷ xs) (x ∷ ys)
Means-same less x xs ys h = inr (refl, h)
Means-same equal x xs ys h = ap (λ l. x ∷ l) h
Means-same greater x xs ys h = inr (refl, h)

shorter_suc :
    (a b : ℕ) → (if ltb (suc a) (suc b) then suc a else suc b) ≡ suc (if ltb a b then a else b)
shorter_suc a b = ground arith

by_size-if :
    (same below : Bool) (s : Sign) (a b : ℕ)
    → by_size (if same then s else (if below then less else greater)) a b
      ≡ (if same then by_size s a b else (if below then less else greater))
by_size-if true below s a b = refl
by_size-if false true s a b = refl
by_size-if false false s a b = refl

-- Slices that begin alike compare as their rests do, and slices that begin otherwise as these bytes.
compare-same :
    (x y : ℕ) (xs ys : List ℕ)
    → compare_slices (x ∷ xs) (y ∷ ys)
      ≡ (if x == y then compare_slices xs ys else (if ltb x y then less else greater))
unfolding compare_slices
compare-same x y xs ys =
    ap (λ n. by_size (memcmp n (x ∷ xs) (y ∷ ys)) (suc (length xs)) (suc (length ys)))
      (shorter_suc (length xs) (length ys))
    ∙ by_size-suc _ (length xs) (length ys)
    ∙ by_size-if (x == y) (ltb x y) _ (length xs) (length ys)

-- `compare` is below zero exactly for a slice that comes before the other in the order of a dictionary,
-- zero exactly for equal slices, and above zero for one that comes behind.
pub compare_slices-Means : (a b : List ℕ) → Means (compare_slices a b) a b
compare_slices-Means [] [] = unfold compare_slices in refl
compare_slices-Means [] (y ∷ ys) =
    let e : compare_slices [] (y ∷ ys) ≡ less = unfold compare_slices in (ground arith) in rw e tt
compare_slices-Means (x ∷ xs) [] =
    let e : compare_slices (x ∷ xs) [] ≡ greater = unfold compare_slices in (ground arith) in
    rw e tt
compare_slices-Means (x ∷ xs) (y ∷ ys) = elim (Bool-cases (x == y)) [
  | inl e ↦
      let same : x ≡ y = ground arith in
      let rest = Means-same (compare_slices xs ys) x xs ys (compare_slices-Means xs ys) in
      rw (compare-same x y xs ys, e)
        (subst (λ z. Means (compare_slices xs ys) (x ∷ xs) (z ∷ ys)) same rest)
  | inr e ↦ elim (Bool-cases (ltb x y)) [
    | inl l ↦ rw (compare-same x y xs ys, e, l) (inl (ground arith))
    | inr l ↦ rw (compare-same x y xs ys, e, l) (inl (ground arith))
  ]
]
