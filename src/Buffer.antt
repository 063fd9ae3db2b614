-- ===== src/Buffer.antt =====
-- `Buffer`: include/p/base/buffer.h, a buffer that grows. The characters from `buffer_` to `cur_` are a
-- list.
pub mod Growth
mod Examples
use p_base.Base.{
  ℕ, zero, suc, ◌+◌, ◌-◌, ◌*◌, ◌%◌, ◌^◌, Bool, true, false, Option, none, some, ltb, leb,
  if◌then◌else◌, List, [], ◌∷◌, ◌++◌, length, add64, sub64,
}

-- `capacity` is `end_ - buffer_`, 0 with the null pointers.
pub record Buffer : Type 0 where
  pub has_buffer : Bool
  pub text : List ℕ
  pub capacity : ℕ

abbrev pub new_buffer : Buffer
new_buffer = record { has_buffer = false; text = []; capacity = 0 }

abbrev pub reset : Buffer → Buffer
reset b = new_buffer

abbrev pub clear : Buffer → Buffer
clear b = record b { text = [] }

abbrev pub size : Buffer → ℕ
size b = length b.text

unfoldable pub avail : Buffer → ℕ
avail b = if b.has_buffer then sub64 (sub64 b.capacity (size b)) 1 else 0

-- `while (tmp_size < new_size) tmp_size = tmp_size << 1;`, on fuel; `none` when the fuel is used up.
unfoldable pub grow : ℕ → ℕ → ℕ → Option ℕ
grow zero tmp_size new_size = if ltb tmp_size new_size then none else some tmp_size
grow (suc fuel) tmp_size new_size =
    let rest = grow fuel (tmp_size * 2 % 2 ^ 64) new_size in
    if ltb tmp_size new_size then rest else some tmp_size

-- `_resize` keeps the characters, in a new block, and `append` copies behind them.
abbrev pub resize_and_copy : List ℕ → Buffer → Option ℕ → Option Buffer
resize_and_copy buf b none = none
resize_and_copy buf b (some new_size) =
    some (record { has_buffer = true; text = b.text ++ buf; capacity = new_size })

-- Sixty-four doublings bring any size to 0 modulo 2 ^ 64.
unfoldable pub append : List ℕ → Buffer → Option Buffer
append buf b =
    let new_size = add64 (add64 (size b) (length buf)) 1 in
    let tmp_size = if b.has_buffer then b.capacity else 64 in
    if leb (length buf) (avail b)
    then some (record b { text = b.text ++ buf })
    else resize_and_copy buf b (grow 64 tmp_size new_size)
