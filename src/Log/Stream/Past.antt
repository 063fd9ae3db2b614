-- ===== src/Log/Stream/Past.antt =====
-- Where a message is written one place past the end of its buffer.
use p_base.Base.{
  ℕ, ◌+◌, ◌≤◌, ◌<◌, ◌^◌, ◌≡◌, refl, ◌∙◌, arith, true, not, ◌&&◌, ◌||◌, some, ltb, leb, ◌==◌,
  if◌then◌else◌, List, [], ◌∷◌, ◌++◌, append_assoc, length, take, Bool-cases, inl, inr,
  length-append, length-take, take-all,
}
use p_base.Convert.{pos, convert_integer, convert_pointer}
use p_base.Convert.Room.{length-convert_integer, length-convert_hex}
use p_base.Log.Levels.{LogSettings, SourceFile}
use p_base.Log.Stream.{
  LogStream, avail, put, just_append, appendf, append_pointer, max_pointer_size, append_place, sink,
  sink_of,
}
use p_base.Log.Stream.Bounds.{IsStream}

-- `appendf` writes past the end of the buffer exactly if the text fills all the room there is.
appendf-reach :
    (text : List ℕ) (s : LogStream)
    → length s.text ≤ s.limit
    → s.reach ≤ s.limit
    → leb (appendf (some text) s).reach s.limit ≡ (avail s == 0 || ltb (length text) (avail s))
unfolding appendf put
appendf-reach text s h k =
    let ret = if ltb (avail s) (length text) then avail s else length text in
    elim (Bool-cases (avail s == 0)) [
      | inl e ↦ rw e (ground arith)
      | inr e ↦ rw e (ground (arith, length-take ret text))
    ]

-- A pointer is written past the end of the buffer exactly if there is room for 18 characters and it
-- has 16 digits: the `0x`, the digits and the `\0` are 19.
append_pointer-reach :
    (n : ℕ) (s : LogStream)
    → n < 2 ^ 64
    → length s.text ≤ s.limit
    → s.reach ≤ s.limit
    → leb (append_pointer n s).reach s.limit
      ≡ not (avail s == 18 && length (convert_pointer n) == 16)
unfolding append_pointer put
append_pointer-reach n s h k l = elim (Bool-cases (leb max_pointer_size (avail s))) [
  | inl e ↦ rw e (ground (arith, length-convert_hex n h))
  | inr e ↦ rw e (ground arith)
]

-- A pointer is written past the end of the buffer exactly if there is room for 18 characters and it
-- has 16 digits, and `appendf` writes past it exactly if its text fills all the room there is.
append_pointer-appendf-reach :
    (n : ℕ) (text : List ℕ) (s : LogStream)
    → n < 2 ^ 64
    → length s.text ≤ s.limit
    → s.reach ≤ s.limit
    → (leb (append_pointer n s).reach s.limit
        ≡ not (avail s == 18 && length (convert_pointer n) == 16))
      × (leb (appendf (some text) s).reach s.limit ≡ (avail s == 0 || ltb (length text) (avail s)))
append_pointer-appendf-reach n text s h k l =
    (append_pointer-reach n s h k l, appendf-reach text s k l)

-- The file of a message: its name has the size that is kept for it, and its line is an `int`.
pub record IsSource (f : SourceFile) : Type 0 where
  pub size : f.name_size ≡ length f.file_name
  pub line : f.file_line < 2 ^ 31

-- What stands behind a message.
unfoldable pub place_text : SourceFile → List ℕ
place_text f =
    (b' ' ∷ b'-' ∷ b' ' ∷ []) ++ (f.file_name ++ b':' ∷ convert_integer (pos f.file_line))

-- The place in the source is put within the buffer, with room left for the end of the line.
pub record Placed (s after : LogStream) : Type 0 where
  pub reach : s.reach ≤ s.limit → after.reach ≤ s.limit
  pub left : length after.text < s.limit
  pub same : (after.limit ≡ s.limit) × (after.reach ≤ s.limit + 1)

length-put :
    (buf : List ℕ) (more : ℕ) (s : LogStream)
    → length (put buf more s).text ≡ length s.text + length buf
unfolding put
length-put buf more s = length-append s.text buf

pub append_place_text :
    (s : LogStream)
    → IsSource s.source_file
    → s.source_file.name_size + 32 ≤ avail s
    → (append_place s).text ≡ s.text ++ place_text s.source_file
unfolding append_place just_append put place_text
append_place_text s f h =
    let e : leb (s.source_file.name_size + 32) (avail s) ≡ true = ground arith in
    let name = s.source_file.file_name in
    let whole : take s.source_file.name_size name ≡ name =
      take-all s.source_file.name_size name (omega (arith, f.size)) in
    let line = convert_integer (pos s.source_file.file_line) in
    let dash : List ℕ = b' ' ∷ b'-' ∷ b' ' ∷ [] in
    rw (e, whole)
      (append_assoc ((s.text ++ dash) ++ name) (b':' ∷ []) line
        ∙ append_assoc (s.text ++ dash) name (b':' ∷ line)
        ∙ append_assoc s.text dash (name ++ b':' ∷ line))

pub append_place-Placed :
    (s : LogStream)
    → IsStream s
    → IsSource s.source_file
    → s.source_file.name_size + 32 ≤ avail s
    → Placed s (append_place s)
unfolding append_place just_append put place_text
append_place-Placed s v f h =
    let e : leb (s.source_file.name_size + 32) (avail s) ≡ true = ground arith in
    let name = s.source_file.file_name in
    let whole : take s.source_file.name_size name ≡ name =
      take-all s.source_file.name_size name (omega (arith, f.size)) in
    let line = convert_integer (pos s.source_file.file_line) in
    let dash : List ℕ = b' ' ∷ b'-' ∷ b' ' ∷ [] in
    let size : length line + 1 ≤ 24 =
      length-convert_integer (pos s.source_file.file_line) (omega (arith, f.line)) in
    let a = length-append s.text dash in
    let b = length-append (s.text ++ dash) name in
    let c = length-append ((s.text ++ dash) ++ name) (b':' ∷ []) in
    let d = length-append (((s.text ++ dash) ++ name) ++ b':' ∷ []) line in
    rw (e, whole)
      (record {
        reach = λ k. ground (arith, f.size, a, b, c, size);
        left = omega (arith, f.size, a, b, c, d, size);
        same = (refl, ground (arith, v.reached, f.size, a, b, c, size));
      })

-- The end of a line is written past the end of the buffer exactly if the message has filled it.
sink-reach :
    (g : LogSettings) (s : LogStream)
    → IsStream s
    → IsSource s.source_file
    → s.reach ≤ s.limit
    → s.auto_flush ≡ true
    → leb (sink g s).stream.reach s.limit ≡ ltb (length s.text) s.limit
unfolding sink sink_of put
sink-reach g s v f h a = elim (Bool-cases (leb (s.source_file.name_size + 32) (avail s))) [
  | inl e ↦
      let p = append_place-Placed s v f (ground arith) in rw a (ground (arith, p.reach, p.left, h))
  | inr e ↦ rw (a, e) (ground (arith, v.within))
]

-- What is written past the end of the buffer, at a stream within its buffer whose file's name has the
-- size kept for it: a pointer exactly if there is room for 18 characters and it has 16 digits,
-- formatted text exactly if it fills all the room there is, and the end of a line exactly if the
-- message has filled the buffer.
pub reach_lem :
    (g : LogSettings) (n : ℕ) (text : List ℕ) (s : LogStream)
    → n < 2 ^ 64
    → IsStream s
    → IsSource s.source_file
    → s.reach ≤ s.limit
    → s.auto_flush ≡ true
    → (leb (append_pointer n s).reach s.limit
        ≡ not (avail s == 18 && length (convert_pointer n) == 16))
      × (leb (appendf (some text) s).reach s.limit ≡ (avail s == 0 || ltb (length text) (avail s)))
      × (leb (sink g s).stream.reach s.limit ≡ ltb (length s.text) s.limit)
reach_lem g n text s h v f l a =
    let (pointer, formatted) = append_pointer-appendf-reach n text s h v.within l in
    (pointer, formatted, sink-reach g s v f l a)
