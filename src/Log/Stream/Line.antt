-- ===== src/Log/Stream/Line.antt =====
-- What a statement logs.
use p_base.Base.{
  ℕ, suc, ◌+◌, ◌≤◌, ◌≡◌, refl, sym, ap, ◌∙◌, arith, Bool, true, false, ◌&&◌, none, some, ltb, leb,
  ◌==◌, if◌then◌else◌, List, [], ◌∷◌, ◌++◌, append_assoc, append-nil, length, length-append,
  take-all,
}
use p_base.Convert.{convert_integer, convert_hex_integer, convert_pointer}
use p_base.Log.Stream.{
  LogStream, avail, put, just_append, append, append_char, appendf, append_integer, hex_logger,
  append_pointer, append_typed_pointer, append_string, append_bool, LogItem, string, char, integer,
  hex, pointer, typed_pointer, bool, floating, noflush, do_noflush, log_item, log_items,
}

-- The text of an item that fits.
unfoldable pub item_text : LogItem → List ℕ
item_text (string none) = b'n' ∷ b'u' ∷ b'l' ∷ b'l' ∷ []
item_text (string (some str)) = str
item_text (char ch) = ch ∷ []
item_text (integer v) = convert_integer v
item_text (hex v) = convert_hex_integer v
item_text (pointer v) = b'0' ∷ b'x' ∷ convert_pointer v
item_text (typed_pointer v) = convert_pointer v
item_text (bool v) = (if v then b'1' else b'0') ∷ []
item_text (floating none) = []
item_text (floating (some text)) = text
item_text noflush = []

unfoldable pub items_text : List LogItem → List ℕ
unfolding item_text
items_text [] = []
items_text (item ∷ items) = item_text item ++ items_text items

-- Whether no item holds the line back.
unfoldable pub flushes : List LogItem → Bool
flushes [] = true
flushes (noflush ∷ items) = false
flushes (item ∷ items) = flushes items

-- The text is put whole, and only `noflush` changes more than that.
pub record Shows (text : List ℕ) (go : Bool) (s after : LogStream) : Type 0 where
  pub shown : after.text ≡ s.text ++ text
  pub limit : after.limit ≡ s.limit
  pub level : after.log_level ≡ s.log_level
  pub file : after.source_file ≡ s.source_file
  pub flush : after.auto_flush ≡ (s.auto_flush && go)

and_true : (b : Bool) → b ≡ (b && true)
and_true true = refl
and_true false = refl

and_false : (b : Bool) → false ≡ (b && false)
and_false true = refl
and_false false = refl

and_assoc : (a b c : Bool) → ((a && b) && c) ≡ (a && (b && c))
and_assoc true b c = refl
and_assoc false b c = refl

put-Shows : (text : List ℕ) (more : ℕ) (s : LogStream) → Shows text true s (put text more s)
unfolding put
put-Shows text more s = record {
  shown = refl;
  limit = refl;
  level = refl;
  file = refl;
  flush = and_true s.auto_flush;
}

same-Shows : (s : LogStream) → Shows [] true s s
same-Shows s = record {
  shown = sym (append-nil s.text);
  limit = refl;
  level = refl;
  file = refl;
  flush = and_true s.auto_flush;
}

append-Shows :
    (text : List ℕ) (s : LogStream) → length text ≤ avail s → Shows text true s (append text s)
unfolding append just_append
append-Shows [] s h =
    let e : (if ltb (avail s) 0 then avail s else 0) ≡ 0 = ground arith in rw e (same-Shows s)
append-Shows (x ∷ xs) s h =
    let len = if ltb (avail s) (suc (length xs)) then avail s else suc (length xs) in
    let e : len ≡ suc (length xs) = ground arith in
    let full : suc (length xs) == 0 ≡ false = ground arith in
    rw (e, full, take-all (length xs) xs (omega arith)) (put-Shows (x ∷ xs) 0 s)

appendf-Shows :
    (text : List ℕ) (s : LogStream)
    → length text + 1 ≤ avail s
    → Shows text true s (appendf (some text) s)
unfolding appendf
appendf-Shows text s h =
    let ret = if ltb (avail s) (length text) then avail s else length text in
    let e : avail s == 0 ≡ false = ground arith in
    let k : ret ≡ length text = ground arith in
    rw (e, k, take-all (length text) text (omega arith)) (put-Shows text 1 s)

put_if-Shows :
    (text : List ℕ) (more size : ℕ) (s : LogStream)
    → size ≤ avail s
    → Shows text true s (if leb size (avail s) then put text more s else s)
put_if-Shows text more size s h =
    let e : leb size (avail s) ≡ true = ground arith in rw e (put-Shows text more s)

append_char-Shows :
    (ch : ℕ) (s : LogStream) → 1 ≤ avail s → Shows (ch ∷ []) true s (append_char ch s)
unfolding append_char
append_char-Shows ch s h =
    let e : ltb 0 (avail s) ≡ true = ground arith in rw e (put-Shows (ch ∷ []) 0 s)

log_item-Shows :
    (item : LogItem) (s : LogStream)
    → length (item_text item) + 24 ≤ avail s
    → Shows (item_text item) (flushes (item ∷ [])) s (log_item item s)
unfolding log_item append_string append_integer hex_logger append_pointer append_typed_pointer
    append_bool appendf do_noflush item_text flushes
log_item-Shows (string none) s h = append-Shows (b'n' ∷ b'u' ∷ b'l' ∷ b'l' ∷ []) s (omega arith)
log_item-Shows (string (some str)) s h = append-Shows str s (omega arith)
log_item-Shows (char ch) s h = append_char-Shows ch s (omega arith)
log_item-Shows (integer v) s h = put_if-Shows (convert_integer v) 1 24 s (omega arith)
log_item-Shows (hex v) s h = put_if-Shows (convert_hex_integer v) 1 24 s (omega arith)
log_item-Shows (pointer v) s h = put_if-Shows (b'0' ∷ b'x' ∷ convert_pointer v) 1 18 s (omega arith)
log_item-Shows (typed_pointer v) s h = put_if-Shows (convert_pointer v) 1 18 s (omega arith)
log_item-Shows (bool v) s h = append_char-Shows (if v then b'1' else b'0') s (omega arith)
log_item-Shows (floating none) s h = same-Shows s
log_item-Shows (floating (some text)) s h = appendf-Shows text s (omega arith)
log_item-Shows noflush s h = record {
  shown = sym (append-nil s.text);
  limit = refl;
  level = refl;
  file = refl;
  flush = and_false s.auto_flush;
}

flushes_cons :
    (item : LogItem) (items : List LogItem)
    → flushes (item ∷ items) ≡ (flushes (item ∷ []) && flushes items)
unfolding flushes
flushes_cons (string x) items = refl
flushes_cons (char x) items = refl
flushes_cons (integer x) items = refl
flushes_cons (hex x) items = refl
flushes_cons (pointer x) items = refl
flushes_cons (typed_pointer x) items = refl
flushes_cons (bool x) items = refl
flushes_cons (floating x) items = refl
flushes_cons noflush items = refl

pub log_items-Shows :
    (items : List LogItem) (s : LogStream)
    → length (items_text items) + 24 ≤ avail s
    → Shows (items_text items) (flushes items) s (log_items items s)
unfolding log_items items_text flushes
log_items-Shows [] s h = same-Shows s
log_items-Shows (item ∷ items) s h =
    let k = length-append (item_text item) (items_text items) in
    let a = log_item-Shows item s (omega arith) in
    let t = log_item item s in
    let room : length (items_text items) + 24 ≤ avail t =
      omega (arith, a.limit, ap length a.shown, length-append s.text (item_text item)) in
    let b = log_items-Shows items t room in
    record {
      shown =
          b.shown
          ∙ ap (λ l. l ++ items_text items) a.shown
          ∙ append_assoc s.text (item_text item) (items_text items);
      limit = b.limit ∙ a.limit;
      level = b.level ∙ a.level;
      file = b.file ∙ a.file;
      flush =
          b.flush
          ∙ ap (λ c. c && flushes items) a.flush
          ∙ and_assoc s.auto_flush (flushes (item ∷ [])) (flushes items)
          ∙ ap (λ c. s.auto_flush && c) (sym (flushes_cons item items));
    }
