-- ===== src/FixedBuffer.antt =====
-- `FixedBuffer`: include/p/base/fixed_buffer.h. The characters from `data_` to `cur_` are a list,
-- and `N` is a parameter. `cur_` itself stands behind the characters, at a multiple of 8, and
-- `avial` counts up to there. Lengths are not negative.
pub mod Bounds
mod Examples
use p_base.Base.{
  ℕ, zero, suc, ◌+◌, ◌-◌, ◌*◌, ◌/◌, Bool, Option, none, some, ltb, ◌==◌, if◌then◌else◌, List, [],
  ◌∷◌, ◌++◌, length, take,
}

abbrev pub cur_place : ℕ → ℕ
cur_place max_size = (max_size + 7) / 8 * 8

-- Room for one character is kept for the `\0`.
unfoldable pub avail : ℕ → List ℕ → ℕ
avail max_size kept = cur_place max_size - length kept - 1

-- `append(const char *, int)`: the number returned, and the characters afterwards. `buf` are the
-- `len` characters.
unfoldable pub append : ℕ → List ℕ → List ℕ → ℕ × List ℕ
unfolding avail
append max_size buf kept =
    let len = if ltb (avail max_size kept) (length buf) then avail max_size kept else length buf in
    if len == 0 then (0, kept) else (len, kept ++ take len buf)

unfoldable pub append_char : ℕ → ℕ → List ℕ → ℕ × List ℕ
unfolding avail
append_char max_size ch kept =
    if ltb 0 (avail max_size kept) then (1, kept ++ ch ∷ []) else (0, kept)

-- `appendf`: `formatted` is the text that `vsnprintf` makes of its arguments, of which it writes
-- as much as there is room for and returns the whole length; `none` is its error.
unfoldable pub appendf : ℕ → Option (List ℕ) → List ℕ → ℕ × List ℕ
unfolding avail
appendf max_size none kept = (0, kept)
appendf max_size (some text) kept =
    let n = avail max_size kept in
    if n == 0
    then (0, kept)
    else (let ret = if ltb n (length text) then n else length text in (ret, kept ++ take ret text))

-- The texts are appended one after the other.
unfoldable pub append_all : ℕ → List (List ℕ) → List ℕ → List ℕ
unfolding append
append_all max_size [] kept = kept
append_all max_size (text ∷ texts) kept = append_all max_size texts (append max_size text kept).1
