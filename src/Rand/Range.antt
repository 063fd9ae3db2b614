-- ===== src/Rand/Range.antt =====
-- A number below a bound is made of the first raw number that gives one, each from as many raw numbers.
use native.Mathlib.Nat.{lt-mul-div-succ, mul-div-le, le-div_iff_mul-le}
use p_base.Base.{
  ℕ, zero, suc, ◌+◌, ◌-◌, ◌*◌, ◌/◌, ◌^◌, ◌≤◌, ◌<◌, ◌≡◌, refl, arith, ltb, ◌==◌, Option, some, true,
  false, Bool-cases, inl, inr,
}
use p_base.Rand.{FastRand, next, rand_loop, fast_rand}

-- The raw numbers that the generator gives from a state on.
unfoldable pub raw : ℕ → FastRand → ℕ
raw zero s = (next s).0
raw (suc n) s = raw n (next s).1

-- A number below the bound, from raw number `place`, the first that is small enough: it is `v` exactly
-- for `range` raw numbers, those from `v * range` on.
pub record Picks (range rand_max fuel : ℕ) (s : FastRand) (res : Option (ℕ × FastRand))
    : Type 0 where
  pub ret : ℕ
  pub after : FastRand
  pub place : ℕ
  pub given : res ≡ some (ret, after)
  pub bounded : ret < rand_max
  pub share : (range * ret ≤ raw place s) × (raw place s < range * (ret + 1))
  pub early : place < fuel
  pub first : (j : ℕ) → j < place → rand_max ≤ raw j s / range

here :
    (fuel range rand_max : ℕ) (s : FastRand)
    → 1 ≤ range
    → raw 0 s / range < rand_max
    → Picks range rand_max (suc fuel) s (some (raw 0 s / range, (next s).1))
here fuel range rand_max s p h = record {
  ret = raw 0 s / range;
  after = (next s).1;
  place = 0;
  given = refl;
  bounded = h;
  share = (mul-div-le (raw 0 s) range, lt-mul-div-succ (raw 0 s) p);
  early = omega arith;
  first = λ j k. absurd (omega arith);
}

later :
    (fuel range rand_max : ℕ) (s : FastRand) (res : Option (ℕ × FastRand))
    → rand_max ≤ raw 0 s / range
    → Picks range rand_max fuel (next s).1 res
    → Picks range rand_max (suc fuel) s res
unfolding raw
later fuel range rand_max s res h rest = record {
  ret = rest.ret;
  after = rest.after;
  place = suc rest.place;
  given = rest.given;
  bounded = rest.bounded;
  share = rest.share;
  early = omega (arith, rest.early);
  first = earlier rest.place rest.first;
}
  where
    earlier :
        (place : ℕ)
        → ((j : ℕ) → j < place → rand_max ≤ raw j (next s).1 / range)
        → (j : ℕ) → j < suc place
        → rand_max ≤ raw j s / range
    earlier place f zero l = h
    earlier place f (suc j) l = f j (omega arith)

rand_loop-Picks :
    (n range rand_max : ℕ) (s : FastRand)
    → 1 ≤ range
    → raw n s / range < rand_max
    → Picks range rand_max (suc n) s (rand_loop (suc n) range rand_max s)
unfolding rand_loop raw
rand_loop-Picks zero range rand_max s p h =
    let e : ltb (raw 0 s / range) rand_max ≡ true = ground arith in
    rw e (here 0 range rand_max s p h)
rand_loop-Picks (suc n) range rand_max s p h = elim (Bool-cases (ltb (raw 0 s / range) rand_max)) [
  | inl e ↦ rw e (here (suc n) range rand_max s p (ground arith))
  | inr e ↦ rw e (
      later (suc n) range rand_max s (rand_loop (suc n) range rand_max (next s).1) (ground arith)
        (rand_loop-Picks n range rand_max (next s).1 p h))
]

-- While one of the first `n + 1` raw numbers is small enough, `fast_rand(rand_max)` returns a number below
-- `rand_max` for one that is not 0, made of the first raw number that is small enough; each number below
-- the bound stands for the same number of raw numbers, 2 ^ 64 - 1 divided by the bound.
pub fast_rand-Picks :
    (n rand_max : ℕ) (s : FastRand)
    → 1 ≤ rand_max
    → rand_max < 2 ^ 64
    → raw n s / ((2 ^ 64 - 1) / rand_max) < rand_max
    → Picks ((2 ^ 64 - 1) / rand_max) rand_max (suc n) s (fast_rand (suc n) rand_max s)
unfolding fast_rand
fast_rand-Picks n rand_max s p q h =
    let b : rand_max == 0 ≡ false = ground arith in
    let range : 1 ≤ (2 ^ 64 - 1) / rand_max =
      (le-div_iff_mul-le {y = 2 ^ 64 - 1} p).1 (omega (arith, q)) in
    rw b (rand_loop-Picks n ((2 ^ 64 - 1) / rand_max) rand_max s range h)
