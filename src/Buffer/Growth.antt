-- ===== src/Buffer/Growth.antt =====
-- A buffer always grows far enough, and not much further.
use p_base.Base.{
  ℕ, zero, suc, ◌+◌, ◌-◌, ◌*◌, ◌%◌, ◌^◌, ◌≤◌, ◌<◌, ◌≡◌, ◌≢◌, refl, subst, ◌∙◌, arith, true, false,
  Option, some, ltb, leb, if◌then◌else◌, List, [], ◌∷◌, ◌++◌, append-nil, length, length-append,
  add64, Bool-cases, inl, inr, ◌⊎◌,
}
use p_base.Buffer.{Buffer, size, avail, grow, append}

-- `fuel` doublings make `tmp_size` as large as `new_size`.
abbrev Enough : ℕ → ℕ → ℕ → Type 0
Enough zero tmp_size new_size = new_size ≤ tmp_size
Enough (suc fuel) tmp_size new_size = Enough fuel (tmp_size * 2) new_size

-- The size that was found: large enough, and the first that is.
record Grows (tmp_size new_size : ℕ) (res : Option ℕ) : Type 0 where
  found : ℕ
  given : res ≡ some found
  enough : new_size ≤ found
  least : (found ≡ tmp_size) ⊎ (found < 2 * new_size)

grow-Grows :
    (fuel tmp_size new_size : ℕ)
    → new_size ≤ 2 ^ 63
    → Enough fuel tmp_size new_size
    → Grows tmp_size new_size (grow fuel tmp_size new_size)
unfolding grow
grow-Grows zero tmp_size new_size h e =
    let b : ltb tmp_size new_size ≡ false = ground arith in
    rw b (record { found = tmp_size; given = refl; enough = e; least = inl refl })
grow-Grows (suc fuel) tmp_size new_size h e = elim (Bool-cases (ltb tmp_size new_size)) [
  | inl b ↦
      let k : tmp_size * 2 % 2 ^ 64 ≡ tmp_size * 2 = ground arith in
      let g = grow-Grows fuel (tmp_size * 2) new_size h e in
      rw (b, k)
        (record {
          found = g.found;
          given = g.given;
          enough = g.enough;
          least = inr (ground (arith, g.least));
        })
  | inr b ↦
      rw b (record { found = tmp_size; given = refl; enough = ground arith; least = inl refl })
]

-- The characters and a `\0` fit the block, which is not empty.
pub record IsBuffer (b : Buffer) : Type 0 where
  pub fits : b.has_buffer ≡ true → (size b + 1 ≤ b.capacity) × (b.capacity ≤ 2 ^ 64 - 1)
  pub nothing : b.has_buffer ≡ false → b.text ≡ []

-- What an append leaves.
pub record Appends (buf : List ℕ) (b : Buffer) (res : Option Buffer) : Type 0 where
  pub after : Buffer
  pub given : res ≡ some after
  pub valid : IsBuffer after
  pub text : after.text ≡ b.text ++ buf
  pub amortized :
      (after.capacity ≡ b.capacity)
      ⊎ (after.capacity ≡ 64)
      ⊎ (after.capacity < 2 * (size after + 1))

avail_some : (b : Buffer) → IsBuffer b → b.has_buffer ≡ true → avail b ≡ b.capacity - size b - 1
unfolding avail
avail_some b v e = rw e (omega (arith, v.fits e))

avail_none : (b : Buffer) → b.has_buffer ≡ false → avail b ≡ 0
unfolding avail
avail_none b e = rw e refl

enough_lem :
    (tmp_size new_size : ℕ) → 1 ≤ tmp_size → new_size ≤ 2 ^ 63 → Enough 64 tmp_size new_size
enough_lem tmp_size new_size h k = omega arith

-- The size that growing starts from.
start_lem :
    (b : Buffer)
    → IsBuffer b
    → (1 ≤ (if b.has_buffer then b.capacity else 64))
      × ((if b.has_buffer then b.capacity else 64) ≤ 2 ^ 64 - 1)
      × (((if b.has_buffer then b.capacity else 64) ≡ b.capacity)
          ⊎ ((if b.has_buffer then b.capacity else 64) ≡ 64))
start_lem b v = elim (Bool-cases b.has_buffer) [
  | inl e ↦ rw e (omega (arith, v.fits e), omega (arith, v.fits e), inl refl)
  | inr e ↦ rw e (omega arith, omega arith, inr refl)
]

nothing-append : (xs ys : List ℕ) → xs ≡ [] → length ys ≤ 0 → xs ++ ys ≡ []
nothing-append xs [] e h = append-nil xs ∙ e
nothing-append xs (y ∷ ys) e h = absurd (omega arith)

pub true_not_false : true ≢ false
true_not_false e = subst (λ c. elim c [ true ↦ Unit | false ↦ ⊥ ]) e tt

-- The characters fit what is left.
copies :
    (buf : List ℕ) (b : Buffer)
    → IsBuffer b
    → length buf ≤ avail b
    → Appends buf b (some (record b { text = b.text ++ buf }))
copies buf b v h = record {
  after = record b { text = b.text ++ buf };
  given = refl;
  valid = record {
    fits = λ e. omega (arith, v.fits e, avail_some b v e, h, length-append b.text buf);
    nothing = λ e. nothing-append b.text buf (v.nothing e) (omega (arith, h, avail_none b e));
  };
  text = refl;
  amortized = inl refl;
}

-- `append` always ends for up to 2 ^ 63 characters with the new ones and the `\0`, with the new
-- characters behind the old ones and room for a `\0`, in a block of the same size, of 64, or of less than
-- twice the size needed.
pub append-Appends :
    (buf : List ℕ) (b : Buffer)
    → IsBuffer b
    → size b + length buf + 1 ≤ 2 ^ 63
    → Appends buf b (append buf b)
unfolding append
append-Appends buf b v h = elim (Bool-cases (leb (length buf) (avail b))) [
  | inl e ↦ rw e (copies buf b v (ground arith))
  | inr e ↦
      let tmp_size = if b.has_buffer then b.capacity else 64 in
      let k : add64 (add64 (size b) (length buf)) 1 ≡ size b + length buf + 1 = omega (arith, h) in
      let (start, bound, same) = start_lem b v in
      let g =
        grow-Grows 64 tmp_size (size b + length buf + 1) h
          (enough_lem tmp_size (size b + length buf + 1) start h) in
      rw (e, k, g.given)
        (record {
          after = record { has_buffer = true; text = b.text ++ buf; capacity = g.found };
          given = refl;
          valid = record {
            fits = λ _. (
              omega (arith, g.enough, length-append b.text buf),
              ground (arith, g.least, bound, h),
            );
            nothing = λ l. absurd (true_not_false l);
          };
          text = refl;
          amortized = elim g.least [
            | inl p ↦ elim same [ inl q ↦ inl (p ∙ q) | inr q ↦ inr (inl (p ∙ q)) ]
            | inr p ↦ inr (inr (omega (arith, p, length-append b.text buf)))
          ];
        })
]
