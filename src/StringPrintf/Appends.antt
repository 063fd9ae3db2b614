-- ===== src/StringPrintf/Appends.antt =====
-- What `StringAppendV` leaves in the string, include/p/base/string_printf.h.
use p_base.Base.{
  ℕ, zero, suc, ◌+◌, ◌-◌, ◌≤◌, ◌<◌, ◌≡◌, refl, sym, ap, ap₂, ◌∙◌, arith, Bool-cases, inl, inr,
  false, ltb, ◌==◌, Option, none, some, List, [], ◌∷◌, ◌++◌, append-nil, append_assoc, length,
  length-append, take, drop, take-all, take-append_le, take-append_ge, length-take, length-drop,
}
use p_base.StringPrintf.{Text, zeros, resize, vsnprintf_at, string_append_v, string_print_v}

length-zeros : (n : ℕ) → length (zeros n) ≡ n
unfolding zeros
length-zeros zero = refl
length-zeros (suc n) = ap suc (length-zeros n)

-- A cut behind the first two of three texts.
take-both :
    (xs ys zs : List ℕ) (n : ℕ) → n ≡ length xs + length ys → take n (xs ++ (ys ++ zs)) ≡ xs ++ ys
take-both xs ys zs n e =
    take-append_ge n xs (ys ++ zs) (omega arith)
    ∙ ap (λ l. xs ++ l)
        (ap (λ k. take k (ys ++ zs)) (let q : n - length xs ≡ length ys = omega arith in q)
          ∙ take-append_le (length ys) ys zs (omega arith)
          ∙ take-all (length ys) ys (omega arith))

take-take : (k n : ℕ) (xs : List ℕ) → k ≤ n → take k (take n xs) ≡ take k xs
take-take zero n xs h = refl
take-take (suc k) zero xs h = absurd (omega arith)
take-take (suc k) (suc n) [] h = refl
take-take (suc k) (suc n) (x ∷ xs) h = ap (λ l. x ∷ l) (take-take k n xs (omega arith))

length-resize : (grown n : ℕ) (s : Text) → length (resize grown n s).chars ≡ n
unfolding resize
length-resize grown n s = omega (
  arith,
  length-append (take n s.chars) (zeros (n - length s.chars)),
  length-take n s.chars,
  length-zeros (n - length s.chars),
)

-- What `resize` leaves of the front.
take-resize :
    (grown n k : ℕ) (s : Text)
    → k ≤ n
    → k ≤ length s.chars
    → take k (resize grown n s).chars ≡ take k s.chars
unfolding resize
take-resize grown n k s h l =
    take-append_le k (take n s.chars) (zeros (n - length s.chars))
      (omega (arith, length-take n s.chars))
    ∙ take-take k n s.chars h

-- The front of what `vsnprintf` writes behind `len` characters.
vsnprintf-front :
    (len room n : ℕ) (old printed : List ℕ) (s : Text)
    → take len s.chars ≡ old
    → length old ≡ len
    → n < room
    → n ≡ length printed
    → len + n ≤ length s.chars
    → take (len + n) (vsnprintf_at len room printed s).chars ≡ old ++ printed
unfolding vsnprintf_at
vsnprintf-front len room n old printed s e same h is l =
    let D = drop (len + length (take (room - 1) printed ++ 0 ∷ [])) s.chars in
    let all : take (room - 1) printed ≡ printed = take-all (room - 1) printed (omega arith) in
    take-take (len + n) (length s.chars) _ l
    ∙ ap (take (len + n)) (
        ap₂ (λ a t. a ++ ((t ++ 0 ∷ []) ++ D)) e all
        ∙ ap (λ t. old ++ t) (append_assoc printed (0 ∷ []) D))
    ∙ take-both old printed (0 ∷ D) (len + n) (omega arith)

vsnprintf-old :
    (len room : ℕ) (old printed : List ℕ) (s : Text)
    → take len s.chars ≡ old
    → length old ≡ len
    → len ≤ length s.chars
    → take len (vsnprintf_at len room printed s).chars ≡ old
unfolding vsnprintf_at
vsnprintf-old len room old printed s e same l =
    let text = take (room - 1) printed ++ 0 ∷ [] in
    let tail = text ++ drop (len + length text) s.chars in
    take-take len (length s.chars) _ l
    ∙ ap (take len) (ap (λ a. a ++ tail) e)
    ∙ take-append_le len old tail (omega arith)
    ∙ take-all len old (omega arith)

length-vsnprintf_at :
    (len room : ℕ) (printed : List ℕ) (s : Text)
    → len ≤ length s.chars
    → length (vsnprintf_at len room printed s).chars ≡ length s.chars
unfolding vsnprintf_at
length-vsnprintf_at len room printed s l =
    let text = take (room - 1) printed ++ 0 ∷ [] in
    omega (
      arith,
      length-take (length s.chars) (take len s.chars ++ (text ++ drop (len + length text) s.chars)),
      length-append (take len s.chars) (text ++ drop (len + length text) s.chars),
      length-append text (drop (len + length text) s.chars),
      length-take len s.chars,
      length-drop (len + length text) s.chars,
    )

resize-shorter :
    (grown n : ℕ) (s : Text) → n ≤ length s.chars → (resize grown n s).chars ≡ take n s.chars
unfolding resize
resize-shorter grown n s h =
    let e : n - length s.chars ≡ 0 = omega arith in
    ap (λ k. take n s.chars ++ zeros k) e
    ∙ ap (λ z. take n s.chars ++ z) zeros_none
    ∙ append-nil (take n s.chars)
  where
    zeros_none : zeros 0 ≡ []
    zeros_none = unfold zeros in refl

-- The text that was made, none for an error, and its length.
abbrev pub text_of : Option (List ℕ) → List ℕ
text_of none = []
text_of (some printed) = printed

abbrev pub length_of : Option (List ℕ) → Option ℕ
length_of none = none
length_of (some printed) = some (length printed)

-- The string has the capacity for its characters.
abbrev pub HasRoom : Text → Type 0
HasRoom s = length s.chars ≤ s.capacity

module _ (grown : ℕ) (s : Text) (h : HasRoom s) where
  -- The string after the first resize and the first `vsnprintf`.
  full : Text
  full = resize grown s.capacity s

  first : List ℕ → Text
  first printed = vsnprintf_at (length s.chars) (s.capacity - length s.chars + 1) printed full

  length-full : length full.chars ≡ s.capacity
  unfolding full
  length-full = length-resize grown s.capacity s

  take-full : take (length s.chars) full.chars ≡ s.chars
  unfolding full
  take-full =
      take-resize grown s.capacity (length s.chars) s h (omega arith)
      ∙ take-all (length s.chars) s.chars (omega arith)

  length-first : (printed : List ℕ) → length (first printed).chars ≡ s.capacity
  unfolding first
  length-first printed =
      length-vsnprintf_at (length s.chars) (s.capacity - length s.chars + 1) printed full
        (omega (arith, length-full, h))
      ∙ length-full

  -- Where there is room, the first call has written all.
  fits :
      (printed : List ℕ)
      → length printed ≤ s.capacity - length s.chars
      → (resize grown (length s.chars + length printed) (first printed)).chars ≡ s.chars ++ printed
  unfolding first
  fits printed l =
      resize-shorter grown (length s.chars + length printed) (first printed)
        (omega (arith, length-first printed, h, l))
      ∙ vsnprintf-front (length s.chars) (s.capacity - length s.chars + 1) (length printed) s.chars
          printed full take-full refl (omega (arith, l)) refl (omega (arith, length-full, h, l))

  -- Where there is not, the second call writes all.
  grows :
      (printed : List ℕ)
      → s.capacity - length s.chars < length printed
      → (vsnprintf_at
          (length s.chars)
          (length printed + 1)
          printed
          (resize grown (length s.chars + length printed) (first printed))).chars
        ≡ s.chars ++ printed
  unfolding first
  grows printed l =
      let n = length s.chars + length printed in
      let fit = resize grown n (first printed) in
      let size = length-resize grown n (first printed) in
      let old : take (length s.chars) fit.chars ≡ s.chars =
        take-resize grown n (length s.chars) (first printed) (omega arith)
          (omega (arith, length-first printed, h))
        ∙ vsnprintf-old (length s.chars) (s.capacity - length s.chars + 1) s.chars printed full
            take-full refl (omega (arith, length-full, h)) in
      let last = vsnprintf_at (length s.chars) (length printed + 1) printed fit in
      sym (
        take-all n last.chars (
          omega (
            arith,
            size,
            length-vsnprintf_at (length s.chars) (length printed + 1) printed fit
                (omega (arith, size)),
          )))
      ∙ vsnprintf-front (length s.chars) (length printed + 1) (length printed) s.chars printed fit
          old refl (omega arith) refl (omega (arith, size))

  append_some :
      (printed : List ℕ)
      → ((string_append_v grown (some printed) s).0 ≡ some (length printed))
        × ((string_append_v grown (some printed) s).1.chars ≡ s.chars ++ printed)
  unfolding string_append_v first full
  append_some [] = (
    refl,
    resize-shorter grown (length s.chars) (first []) (omega (arith, length-first [], h))
        ∙ vsnprintf-old (length s.chars) (s.capacity - length s.chars + 1) s.chars [] full take-full
            refl (omega (arith, length-full, h))
        ∙ sym (append-nil s.chars),
  )
  append_some (c ∷ cs) = elim (Bool-cases (ltb (s.capacity - length s.chars) (suc (length cs)))) [
    | inl more ↦
        let e : suc (length cs) == 0 ≡ false = ground arith in
        rw (e, more) (refl, grows (c ∷ cs) (ground arith))
    | inr fit ↦
        let e : suc (length cs) == 0 ≡ false = ground arith in
        rw (e, fit) (refl, fits (c ∷ cs) (ground arith))
  ]

  append_none : (string_append_v grown none s).1.chars ≡ s.chars
  unfolding string_append_v full
  append_none =
      resize-shorter grown (length s.chars) full (omega (arith, length-full, h)) ∙ take-full

-- `StringAppendV` puts the text that was made behind the string and returns its length, whether or not the
-- string has to grow, and leaves the string as it was where there is an error; `StringPrintV` leaves
-- that text, or nothing.
pub string_append_v-string_print_v :
    (grown : ℕ) (outcome : Option (List ℕ)) (s : Text)
    → HasRoom s
    → ((string_append_v grown outcome s).0 ≡ length_of outcome)
      × ((string_append_v grown outcome s).1.chars ≡ s.chars ++ text_of outcome)
      × ((string_print_v grown outcome s).0 ≡ length_of outcome)
      × ((string_print_v grown outcome s).1.chars ≡ text_of outcome)
unfolding string_print_v
string_append_v-string_print_v grown (some printed) s h =
    let (a, b) = append_some grown s h printed in
    let (c, d) = append_some grown (record s { chars = [] }) (omega arith) printed in (a, b, c, d)
string_append_v-string_print_v grown none s h = (
  unfold string_append_v in refl,
  append_none grown s h ∙ sym (append-nil s.chars),
  unfold string_append_v in refl,
  append_none grown (record s { chars = [] }) (omega arith),
)
