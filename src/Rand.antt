-- ===== src/Rand.antt =====
-- Random numbers: src/rand.cpp. The seeds come from the system's random device and are parameters.
pub mod Range
mod Examples
use Prim.Native.Nat.{bit_xor, bit_or, bit_and}
use p_base.Base.{
  ℕ, zero, suc, ◌+◌, ◌-◌, ◌*◌, ◌/◌, ◌%◌, ◌^◌, Option, none, some, ltb, ◌==◌, if◌then◌else◌, add64,
  List, [], ◌∷◌,
}

-- `s[0]` and `s[1]`
pub record FastRand : Type 0 where
  pub s0 : ℕ
  pub s1 : ℕ

-- Shifts of a 64-bit word.
abbrev pub shift_left : ℕ → ℕ → ℕ
shift_left x k = x * 2 ^ k % 2 ^ 64

unfoldable pub rotl : ℕ → ℕ → ℕ
rotl x k = bit_or (shift_left x k) (x / 2 ^ (64 - k))

-- The number, and the state afterwards.
unfoldable pub next : FastRand → ℕ × FastRand
next s =
    let result = add64 s.s0 s.s1 in
    let s1 = bit_xor s.s1 s.s0 in
    (
      result,
      record { s0 = bit_xor (bit_xor (rotl s.s0 55) s1) (shift_left s1 14); s1 = rotl s1 36 },
    )

-- `fast_rand(rand_max)`, the loop on fuel: `none` when no number so far was small enough.
unfoldable pub rand_loop : ℕ → ℕ → ℕ → FastRand → Option (ℕ × FastRand)
rand_loop zero range rand_max s = none
rand_loop (suc fuel) range rand_max s =
    let (raw, t) = next s in
    let ret = raw / range in
    let rest = rand_loop fuel range rand_max t in if ltb ret rand_max then some (ret, t) else rest

unfoldable pub fast_rand : ℕ → ℕ → FastRand → Option (ℕ × FastRand)
fast_rand fuel rand_max s =
    let found = rand_loop fuel ((2 ^ 64 - 1) / rand_max) rand_max s in
    if rand_max == 0 then some (0, s) else found

-- `jump`: the states on the way are combined where the word has a bit, from its lowest on.
abbrev pub combine : FastRand → FastRand → FastRand
combine a s = record { s0 = bit_xor a.s0 s.s0; s1 = bit_xor a.s1 s.s1 }

-- `n` bits of `word` from bit `b` on: what was combined, and the state.
unfoldable pub jump_bits : ℕ → ℕ → ℕ → FastRand → FastRand → FastRand × FastRand
unfolding next
jump_bits zero b word a s = (a, s)
jump_bits (suc n) b word a s =
    let c = if bit_and word (2 ^ b) == 0 then a else combine a s in
    jump_bits n (b + 1) word c (next s).1

unfoldable pub jump_words : List ℕ → FastRand → FastRand → FastRand
jump_words [] a s = a
jump_words (word ∷ words) a s = let (c, t) = jump_bits 64 0 word a s in jump_words words c t

unfoldable pub jump : FastRand → FastRand
jump s = jump_words (0xbeac0467eba5facb ∷ 0xd86b048b86aa9922 ∷ []) (record { s0 = 0; s1 = 0 }) s
