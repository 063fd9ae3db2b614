-- ===== src/StringPrintf.antt =====
-- include/p/base/string_printf.h: formatted text at the end of a `std::string`. What `vsnprintf` makes of
-- the format and its arguments is a parameter: a text, or `none` for an error.
pub mod Appends
mod Examples
use p_base.Base.{
  ℕ, zero, suc, ◌+◌, ◌-◌, ltb, ◌==◌, if◌then◌else◌, Option, none, some, List, [], ◌∷◌, ◌++◌, length,
  take, drop,
}

-- The characters of a string, and how many it can hold before it grows.
pub record Text : Type 0 where
  pub chars : List ℕ
  pub capacity : ℕ

unfoldable pub zeros : ℕ → List ℕ
zeros zero = []
zeros (suc n) = 0 ∷ zeros n

-- `resize`: the new characters are 0. Where the string grows, `grown` is its new capacity.
unfoldable pub resize : ℕ → ℕ → Text → Text
unfolding zeros
resize grown n s = record {
  chars = take n s.chars ++ zeros (n - length s.chars);
  capacity = if ltb s.capacity n then grown else s.capacity;
}

-- `vsnprintf` of `printed` to place `len`, with `room` places: all but one of them take characters, and
-- the last gets the 0. A write to the place behind the last character is not seen in `chars`.
unfoldable pub vsnprintf_at : ℕ → ℕ → List ℕ → Text → Text
vsnprintf_at len room printed s =
    let text = take (room - 1) printed ++ 0 ∷ [] in
    record s {
      chars =
          take (length s.chars) (take len s.chars ++ (text ++ drop (len + length text) s.chars));
    }

-- `StringAppendV`: the number that it returns, `none` for the error's, and the string.
unfoldable pub string_append_v : ℕ → Option (List ℕ) → Text → Option ℕ × Text
string_append_v grown none s = (none, resize grown (length s.chars) (resize grown s.capacity s))
string_append_v grown (some printed) s =
    let len = length s.chars in
    let room = s.capacity - len in
    let first = vsnprintf_at len (room + 1) printed (resize grown s.capacity s) in
    if length printed == 0
    then (some 0, resize grown len first)
    else (let fit = resize grown (len + length printed) first in
        (
          some (length printed),
          if ltb room (length printed)
              then vsnprintf_at len (length printed + 1) printed fit
              else fit,
        ))

-- `StringPrintV`
unfoldable pub string_print_v : ℕ → Option (List ℕ) → Text → Option ℕ × Text
unfolding string_append_v
string_print_v grown printed s = string_append_v grown printed (record s { chars = [] })
