-- ===== src/Log/Stream/Bounds.antt =====
-- How far a message is written: up to the end of the buffer, and where one character beyond it.
use p_base.Base.{
  ℕ, ◌+◌, ◌≤◌, ◌<◌, ◌^◌, ◌≡◌, refl, sym, ap, ◌∙◌, arith, Option, none, some, ltb, leb, ◌==◌,
  if◌then◌else◌, List, [], ◌∷◌, ◌++◌, append_assoc, append-nil, length, take, Bool-cases, inl, inr,
  length-append, length-take,
}
use p_base.Convert.{convert_integer, convert_hex_integer, convert_pointer}
use p_base.Convert.Digits.{magnitude}
use p_base.Convert.Room.{length-convert_integer, length-convert_hex}
use p_base.Log.Stream.{
  LogStream, avail, put, just_append, append, append_char, appendf, append_integer, hex_logger,
  append_pointer, append_typed_pointer, append_string, append_bool, LogItem, string, char, integer,
  hex, pointer, typed_pointer, bool, floating, noflush, do_noflush, log_item, log_items,
}

-- The text is within the buffer, and nothing was written more than one place behind it.
pub record IsStream (s : LogStream) : Type 0 where
  pub within : length s.text ≤ s.limit
  pub reached : s.reach ≤ s.limit + 1

-- What an operator leaves: more text, within the buffer.
pub record Grows (s after : LogStream) : Type 0 where
  pub valid : IsStream after
  pub more : (shown : List ℕ) × (after.text ≡ s.text ++ shown)
  pub same : after.limit ≡ s.limit

-- A number that is shown has 64 bits.
abbrev pub Is64 : LogItem → Type 0
Is64 (integer v) = magnitude v < 2 ^ 64
Is64 (hex v) = v < 2 ^ 64
Is64 (pointer v) = v < 2 ^ 64
Is64 (typed_pointer v) = v < 2 ^ 64
Is64 item = Unit

pub put-Grows :
    (buf : List ℕ) (more : ℕ) (s : LogStream)
    → IsStream s
    → length s.text + length buf ≤ s.limit
    → more ≤ 1
    → Grows s (put buf more s)
unfolding put
put-Grows buf more s v h k = record {
  valid = record {
    within = omega (arith, length-append s.text buf);
    reached = ground (arith, v.reached);
  };
  more = (buf, refl);
  same = refl;
}

stays : (s : LogStream) → IsStream s → Grows s s
stays s v = record { valid = v; more = ([], sym (append-nil s.text)); same = refl }

-- A test that there is room, before text of at most that size.
put_if-Grows :
    (buf : List ℕ) (more size : ℕ) (s : LogStream)
    → IsStream s
    → length buf ≤ size
    → more ≤ 1
    → Grows s (if leb size (avail s) then put buf more s else s)
put_if-Grows buf more size s v h k = elim (Bool-cases (leb size (avail s))) [
  | inl e ↦ rw e (put-Grows buf more s v (ground (arith, v.within)) k)
  | inr e ↦ rw e (stays s v)
]

append-Grows : (buf : List ℕ) (s : LogStream) → IsStream s → Grows s (append buf s)
unfolding append just_append
append-Grows buf s v =
    let len = if ltb (avail s) (length buf) then avail s else length buf in
    let k : len ≤ avail s = ground arith in
    elim (Bool-cases (len == 0)) [
      | inl e ↦ rw e (stays s v)
      | inr e ↦ rw e (
          put-Grows (take len buf) 0 s v (omega (arith, k, v.within, length-take len buf))
            (omega arith))
    ]

appendf-Grows : (text : Option (List ℕ)) (s : LogStream) → IsStream s → Grows s (appendf text s)
unfolding appendf
appendf-Grows none s v = stays s v
appendf-Grows (some text) s v =
    let ret = if ltb (avail s) (length text) then avail s else length text in
    let k : ret ≤ avail s = ground arith in
    elim (Bool-cases (avail s == 0)) [
      | inl e ↦ rw e (stays s v)
      | inr e ↦ rw e (
          put-Grows (take ret text) 1 s v (omega (arith, k, v.within, length-take ret text))
            (omega arith))
    ]

append_char-Grows : (ch : ℕ) (s : LogStream) → IsStream s → Grows s (append_char ch s)
unfolding append_char
append_char-Grows ch s v = elim (Bool-cases (ltb 0 (avail s))) [
  | inl e ↦ rw e (put-Grows (ch ∷ []) 0 s v (ground (arith, v.within)) (omega arith))
  | inr e ↦ rw e (stays s v)
]

log_item-Grows :
    (item : LogItem) (s : LogStream) → Is64 item → IsStream s → Grows s (log_item item s)
unfolding log_item append_string append_integer hex_logger append_pointer append_typed_pointer
    append_bool do_noflush
log_item-Grows (string none) s h v = append-Grows (b'n' ∷ b'u' ∷ b'l' ∷ b'l' ∷ []) s v
log_item-Grows (string (some str)) s h v = append-Grows str s v
log_item-Grows (char ch) s h v = append_char-Grows ch s v
log_item-Grows (integer n) s h v =
    put_if-Grows (convert_integer n) 1 24 s v (omega (arith, length-convert_integer n h))
      (omega arith)
log_item-Grows (hex n) s h v =
    put_if-Grows (convert_hex_integer n) 1 24 s v (omega (arith, length-convert_hex n h))
      (omega arith)
log_item-Grows (pointer n) s h v =
    put_if-Grows (b'0' ∷ b'x' ∷ convert_pointer n) 1 18 s v (omega (arith, length-convert_hex n h))
      (omega arith)
log_item-Grows (typed_pointer n) s h v =
    put_if-Grows (convert_pointer n) 1 18 s v (omega (arith, length-convert_hex n h)) (omega arith)
log_item-Grows (bool x) s h v = append_char-Grows (if x then b'1' else b'0') s v
log_item-Grows (floating text) s h v = appendf-Grows text s v
log_item-Grows noflush s h v = record {
  valid = record { within = v.within; reached = v.reached };
  more = ([], sym (append-nil s.text));
  same = refl;
}

abbrev pub All64 : List LogItem → Type 0
All64 [] = Unit
All64 (item ∷ items) = Is64 item × All64 items

-- Whatever is put into a stream, all that it had stays in front, the text stays within the buffer, and
-- nothing is written more than one place behind the buffer, for numbers of at most 64 bits.
pub log_items-Grows :
    (items : List LogItem) (s : LogStream) → All64 items → IsStream s → Grows s (log_items items s)
unfolding log_items
log_items-Grows [] s h v = stays s v
log_items-Grows (item ∷ items) s (h, hs) v =
    let a = log_item-Grows item s h v in
    let b = log_items-Grows items (log_item item s) hs a.valid in
    record {
      valid = b.valid;
      more = (
        a.more.0 ++ b.more.0,
        b.more.1 ∙ ap (λ l. l ++ b.more.0) a.more.1 ∙ append_assoc s.text a.more.0 b.more.0,
      );
      same = b.same ∙ a.same;
    }
