-- ===== src/Log/Stream.antt =====
-- `LogStream` and `LogMessage`: include/p/base/logger.h and src/logger.cpp. The characters from
-- `buffer_` to `cur_` are a list. `avial` and its uses are on `int`; where the text has come past the
-- end it is negative there and 0 here, and every use does the same for both.
pub mod Bounds
pub mod Past
pub mod Line
pub mod Statement
use p_base.Base.{
  ℕ, zero, suc, ◌+◌, ◌*◌, ◌-◌, Bool, true, false, Option, none, some, ltb, leb, ◌==◌, if◌then◌else◌,
  List, [], ◌∷◌, ◌++◌, length, take,
}
use p_base.Convert.{
  Value, pos, convert_integer, convert_hex_integer, convert_pointer, max_numeric_size,
}
use p_base.Log.Levels.{LogLevel, level_value, log_level_name, LogSettings, is_logged, SourceFile}

-- `limit` is `end_ - buffer_`. `reach` is how far the buffer was written, from `buffer_` on.
pub record LogStream : Type 0 where
  pub has_buffer : Bool
  pub limit : ℕ
  pub text : List ℕ
  pub auto_flush : Bool
  pub log_level : ℕ
  pub source_file : SourceFile
  pub reach : ℕ

abbrev pub avail : LogStream → ℕ
avail s = s.limit - length s.text

abbrev pub larger : ℕ → ℕ → ℕ
larger a b = if ltb a b then b else a

-- `cur_` moves behind `buf`, and `more` characters are written behind it.
unfoldable pub put : List ℕ → ℕ → LogStream → LogStream
put buf more s = record s {
  text = s.text ++ buf;
  reach = larger s.reach (length s.text + length buf + more);
}

unfoldable pub just_append : List ℕ → LogStream → LogStream
unfolding put
just_append buf s = put buf 0 s

-- `append(const char *, int)`, with a length that is not negative.
unfoldable pub append : List ℕ → LogStream → LogStream
unfolding just_append
append buf s =
    let len = if ltb (avail s) (length buf) then avail s else length buf in
    if len == 0 then s else just_append (take len buf) s

unfoldable pub append_char : ℕ → LogStream → LogStream
unfolding put
append_char ch s = if ltb 0 (avail s) then put (ch ∷ []) 0 s else s

-- `appendf`: `vsnprintf` may write one character more than there is room for, its `\0`. `none` is its
-- error, when it is taken to write nothing.
unfoldable pub appendf : Option (List ℕ) → LogStream → LogStream
unfolding put
appendf none s = s
appendf (some formatted) s =
    let n = avail s in
    let ret = if ltb n (length formatted) then n else length formatted in
    if n == 0 then s else put (take ret formatted) 1 s

-- A number is written with a `\0` behind it.
unfoldable pub append_integer : Value → LogStream → LogStream
unfolding put
append_integer v s = if leb max_numeric_size (avail s) then put (convert_integer v) 1 s else s

unfoldable pub hex_logger : ℕ → LogStream → LogStream
unfolding put
hex_logger v s = if leb max_numeric_size (avail s) then put (convert_hex_integer v) 1 s else s

abbrev pub max_pointer_size : ℕ
max_pointer_size = 2 * 8 + 2

-- `operator<<(const void *)`
unfoldable pub append_pointer : ℕ → LogStream → LogStream
unfolding put
append_pointer v s =
    if leb max_pointer_size (avail s) then put (b'0' ∷ b'x' ∷ convert_pointer v) 1 s else s

-- `operator<<(const T *)`
unfoldable pub append_typed_pointer : ℕ → LogStream → LogStream
unfolding put
append_typed_pointer v s = if leb max_pointer_size (avail s) then put (convert_pointer v) 1 s else s

-- `operator<<(const char *)`; `none` is the null pointer.
unfoldable pub append_string : Option (List ℕ) → LogStream → LogStream
unfolding append
append_string none s = append (b'n' ∷ b'u' ∷ b'l' ∷ b'l' ∷ []) s
append_string (some str) s = append str s

unfoldable pub append_bool : Bool → LogStream → LogStream
unfolding append_char
append_bool v s = append_char (if v then b'1' else b'0') s

-- What stands behind `<<`. `formatted` is what `vsnprintf` makes of a floating-point number.
pub data LogItem : Type 0 where
  string : Option (List ℕ) → LogItem
  char : ℕ → LogItem
  integer : Value → LogItem
  hex : ℕ → LogItem
  pointer : ℕ → LogItem
  typed_pointer : ℕ → LogItem
  bool : Bool → LogItem
  floating : Option (List ℕ) → LogItem
  noflush : LogItem

unfoldable pub do_noflush : LogStream → LogStream
do_noflush s = record s { auto_flush = false }

unfoldable pub log_item : LogItem → LogStream → LogStream
unfolding append_string append_char append_integer hex_logger append_pointer append_typed_pointer
    append_bool appendf do_noflush
log_item (string str) s = append_string str s
log_item (char ch) s = append_char ch s
log_item (integer v) s = append_integer v s
log_item (hex v) s = hex_logger v s
log_item (pointer v) s = append_pointer v s
log_item (typed_pointer v) s = append_typed_pointer v s
log_item (bool v) s = append_bool v s
log_item (floating formatted) s = appendf formatted s
log_item noflush s = do_noflush s

unfoldable pub log_items : List LogItem → LogStream → LogStream
unfolding log_item
log_items [] s = s
log_items (item ∷ items) s = log_items items (log_item item s)

-- The stream of a thread, before its first message.
abbrev pub new_stream : SourceFile → LogStream
new_stream file = record {
  has_buffer = false;
  limit = 0;
  text = [];
  auto_flush = true;
  log_level = 0;
  source_file = file;
  reach = 0;
}

abbrev pub is_empty : List ℕ → Bool
is_empty [] = true
is_empty (x ∷ xs) = false

-- `check_buffer`: whether the stream is empty, and the stream with a buffer.
unfoldable pub check_buffer : LogSettings → LogStream → Bool × LogStream
check_buffer g s =
    let t =
      if s.has_buffer
      then s
      else record s { has_buffer = true; text = []; limit = g.max_length_per_log; reach = 0 } in
    (is_empty t.text, t)

-- `log_stream`: `date` is the text of the moment, `thread_name` that of the thread.
unfoldable pub log_stream :
    LogSettings → List ℕ → List ℕ → LogLevel → SourceFile → LogStream → LogStream
unfolding check_buffer just_append
log_stream g date thread_name level file s =
    let checked = check_buffer g (record s { log_level = level_value level }) in
    if checked.0
    then record (just_append (log_level_name level)
        (just_append thread_name (just_append date checked.1))) { source_file = file }
    else checked.1

-- What the end of a message hands out: to the output of errors, and to the thread that writes the
-- log.
pub record Sunk : Type 0 where
  pub stream : LogStream
  pub ef_output : Option (List ℕ)
  pub buffered : Option (List ℕ)

-- The place in the source, when there is room for it.
unfoldable pub append_place : LogStream → LogStream
unfolding put just_append
append_place s =
    if leb (s.source_file.name_size + 32) (avail s)
    then put (convert_integer (pos s.source_file.file_line)) 1 (
        put (b':' ∷ []) 0 (
          just_append (take s.source_file.name_size s.source_file.file_name)
            (just_append (b' ' ∷ b'-' ∷ b' ' ∷ []) s)))
    else s

-- `Sink`, in the destructor of the message. The flag is `auto_flush_`.
unfoldable pub sink_of : Bool → LogSettings → LogStream → Sunk
unfolding append_place put
sink_of false g s = record {
  stream = record s { auto_flush = true };
  ef_output = none;
  buffered = none;
}
sink_of true g s =
    let t = put (b'\n' ∷ []) 0 (append_place s) in
    record {
      stream = record t { text = []; auto_flush = true };
      ef_output = if leb g.ef_log_level s.log_level then some t.text else none;
      buffered = some t.text;
    }

unfoldable pub sink : LogSettings → LogStream → Sunk
unfolding sink_of
sink g s = sink_of s.auto_flush g s

-- A whole statement, such as `LOG_INFO << a << b;`, which does nothing when its level is not logged.
unfoldable pub log_statement :
    LogSettings → List ℕ → List ℕ → LogLevel → SourceFile → List LogItem → LogStream → Sunk
unfolding is_logged log_stream log_items sink
log_statement g date thread_name level file items s =
    if is_logged level g
    then sink g (log_items items (log_stream g date thread_name level file s))
    else record { stream = s; ef_output = none; buffered = none }
