-- ===== src/FixedBuffer/Bounds.antt =====
-- Nothing is written past the end, and what does not fit is cut off.
use p_base.Base.{
  ℕ, zero, suc, ◌+◌, ◌-◌, ◌≤◌, ◌≡◌, refl, subst, sym, ap, ◌∙◌, arith, Bool-cases, inl, inr, ltb,
  ◌==◌, if◌then◌else◌, some, List, [], ◌∷◌, ◌++◌, append_assoc, append-nil, length, take, min,
  length-append, length-take, take-all, take-append_ge,
}
use native.Mathlib.Decide.{dec_lt}
use p_base.FixedBuffer.{cur_place, avail, append, append_char, appendf, append_all}

-- All the texts, one behind the other.
unfoldable pub flatten : List (List ℕ) → List ℕ
flatten [] = []
flatten (text ∷ texts) = text ++ flatten texts

-- There is room for one more character, the `\0`, before `cur_`.
abbrev pub HasRoom : ℕ → List ℕ → Type 0
HasRoom max_size kept = length kept + 1 ≤ cur_place max_size

-- The whole text with the other characters before it, cut off where the room ends.
abbrev pub Cut : ℕ → List ℕ → List ℕ → ℕ × List ℕ → Type 0
Cut max_size text kept res =
    (res.1 ≡ take (cur_place max_size - 1) (kept ++ text))
    × (res.0 ≡ min (length text) (cur_place max_size - 1 - length kept))
    × HasRoom max_size res.1

take-min : (d : ℕ) (text : List ℕ) → take (min (length text) d) text ≡ take d text
take-min d text = elim (dec_lt (length text) d) [
  | yes p ↦ take-all (min (length text) d) text (omega arith) ∙ sym (take-all d text (omega arith))
  | no p ↦ ap (λ k. take k text) (omega arith)
]

-- As many characters of the text as fit, behind the others, are what is left when both are cut.
take-min_append :
    (c : ℕ) (text kept : List ℕ)
    → length kept ≤ c
    → kept ++ take (min (length text) (c - length kept)) text ≡ take c (kept ++ text)
take-min_append c text kept h =
    ap (λ l. kept ++ l) (take-min (c - length kept) text) ∙ sym (take-append_ge c kept text h)

cut_lem :
    (max_size k : ℕ) (text kept : List ℕ)
    → HasRoom max_size kept
    → k ≡ min (length text) (cur_place max_size - 1 - length kept)
    → Cut max_size text kept (k, kept ++ take k text)
cut_lem max_size k text kept h e = (
  rw e (take-min_append (cur_place max_size - 1) text kept (omega arith)),
  e,
  omega (arith, length-append kept (take k text), length-take k text),
)

take-take_append : (c : ℕ) (xs ys : List ℕ) → take c (take c xs ++ ys) ≡ take c (xs ++ ys)
take-take_append zero xs ys = refl
take-take_append (suc c) [] ys = refl
take-take_append (suc c) (x ∷ xs) ys = ap (λ l. x ∷ l) (take-take_append c xs ys)

nothing_lem :
    (max_size : ℕ) (text kept : List ℕ)
    → HasRoom max_size kept
    → 0 ≡ min (length text) (cur_place max_size - 1 - length kept)
    → Cut max_size text kept (0, kept)
nothing_lem max_size text kept h e =
    subst (λ l. Cut max_size text kept (0, l)) (append-nil kept) (cut_lem max_size 0 text kept h e)

shorter : (a b : ℕ) → (if ltb a b then a else b) ≡ min b a
shorter a b = ground arith

avail_lem :
    (max_size : ℕ) (kept : List ℕ) → avail max_size kept ≡ cur_place max_size - 1 - length kept
unfolding avail
avail_lem max_size kept = omega arith

-- `append` of characters writes those that fit, returns their number, and leaves room for the `\0`.
append-Cut :
    (max_size : ℕ) (text kept : List ℕ)
    → HasRoom max_size kept
    → Cut max_size text kept (append max_size text kept)
unfolding append
append-Cut max_size text kept h =
    let len =
      if ltb (avail max_size kept) (length text) then avail max_size kept else length text in
    let e : len ≡ min (length text) (cur_place max_size - 1 - length kept) =
      shorter (avail max_size kept) (length text)
      ∙ ap (min (length text)) (avail_lem max_size kept) in
    elim (Bool-cases (len == 0)) [
      | inl none_fit ↦ rw none_fit (nothing_lem max_size text kept h (ground (arith, e)))
      | inr some_fit ↦ rw some_fit (cut_lem max_size len text kept h e)
    ]

-- One character is written if there is room, as a text of one is.
append_char-Cut :
    (max_size ch : ℕ) (kept : List ℕ)
    → HasRoom max_size kept
    → Cut max_size (ch ∷ []) kept (append_char max_size ch kept)
unfolding append_char
append_char-Cut max_size ch kept h =
    let e = avail_lem max_size kept in
    elim (Bool-cases (ltb 0 (avail max_size kept))) [
      | inl fits ↦ rw fits (cut_lem max_size 1 (ch ∷ []) kept h (ground (arith, e)))
      | inr full ↦ rw full (nothing_lem max_size (ch ∷ []) kept h (ground (arith, e)))
    ]

-- What `vsnprintf` makes is written as far as it fits, and the number returned is that of the
-- characters written.
appendf-Cut :
    (max_size : ℕ) (text kept : List ℕ)
    → HasRoom max_size kept
    → Cut max_size text kept (appendf max_size (some text) kept)
unfolding appendf
appendf-Cut max_size text kept h =
    let len =
      if ltb (avail max_size kept) (length text) then avail max_size kept else length text in
    let e : len ≡ min (length text) (cur_place max_size - 1 - length kept) =
      shorter (avail max_size kept) (length text)
      ∙ ap (min (length text)) (avail_lem max_size kept) in
    elim (Bool-cases (avail max_size kept == 0)) [
      | inl full ↦
          rw full (nothing_lem max_size text kept h (ground (arith, avail_lem max_size kept)))
      | inr room ↦ rw room (cut_lem max_size len text kept h e)
    ]

-- Each append, of a text, of one character and of what `vsnprintf` makes, writes what fits, returns the
-- number of the characters written, and keeps room for the `\0`.
appends-Cut :
    (max_size ch : ℕ) (text kept : List ℕ)
    → HasRoom max_size kept
    → Cut max_size text kept (append max_size text kept)
      × Cut max_size (ch ∷ []) kept (append_char max_size ch kept)
      × Cut max_size text kept (appendf max_size (some text) kept)
appends-Cut max_size ch text kept h = (
  append-Cut max_size text kept h,
  append_char-Cut max_size ch kept h,
  appendf-Cut max_size text kept h,
)

-- Texts that are appended one after the other are what the buffer held and all of them together,
-- cut off where the room ends.
append_all_lem :
    (max_size : ℕ) (texts : List (List ℕ)) (kept : List ℕ)
    → HasRoom max_size kept
    → append_all max_size texts kept ≡ take (cur_place max_size - 1) (kept ++ flatten texts)
unfolding append_all flatten
append_all_lem max_size [] kept h = sym (
    ap (take (cur_place max_size - 1)) (append-nil kept)
    ∙ take-all (cur_place max_size - 1) kept (omega arith))
append_all_lem max_size (text ∷ texts) kept h =
    let (content, _, room) = append-Cut max_size text kept h in
    append_all_lem max_size texts (append max_size text kept).1 room
    ∙ ap (λ l. take (cur_place max_size - 1) (l ++ flatten texts)) content
    ∙ take-take_append (cur_place max_size - 1) (kept ++ text) (flatten texts)
    ∙ ap (take (cur_place max_size - 1)) (append_assoc kept text (flatten texts))

-- Each append, of a text, of one character and of what `vsnprintf` makes, writes what fits, returns the
-- number of the characters written, and keeps room for the `\0`. Texts that are appended one after
-- the other are what the buffer held and all of them together, cut off where the room ends.
pub append_all-appends :
    (max_size ch : ℕ) (text : List ℕ) (texts : List (List ℕ)) (kept : List ℕ)
    → HasRoom max_size kept
    → Cut max_size text kept (append max_size text kept)
      × Cut max_size (ch ∷ []) kept (append_char max_size ch kept)
      × Cut max_size text kept (appendf max_size (some text) kept)
      × (append_all max_size texts kept ≡ take (cur_place max_size - 1) (kept ++ flatten texts))
append_all-appends max_size ch text texts kept h =
    let (a, b, c) = appends-Cut max_size ch text kept h in
    (a, b, c, append_all_lem max_size texts kept h)
