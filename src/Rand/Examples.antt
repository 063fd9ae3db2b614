-- ===== src/Rand/Examples.antt =====
-- The theorem on random numbers at a state.
use p_base.Base.{◌-◌, ◌/◌, ◌^◌, arith}
use p_base.Rand.{FastRand, next, fast_rand}
use p_base.Rand.Range.{raw, Picks, fast_rand-Picks}

abbrev seeded : FastRand
seeded = record { s0 = 5; s1 = 2 ^ 63 }

fast_rand-Picks_example : Picks ((2 ^ 64 - 1) / 6) 6 1 seeded (fast_rand 1 6 seeded)
unfolding raw next
fast_rand-Picks_example = fast_rand-Picks 0 6 seeded (omega arith) (omega arith) (omega arith)
