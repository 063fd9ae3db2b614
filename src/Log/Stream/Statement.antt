-- ===== src/Log/Stream/Statement.antt =====
-- A whole statement: what it hands to the thread that writes the log.
use p_base.Base.{
  ℕ, ◌+◌, ◌≤◌, ◌≡◌, refl, sym, subst, ap, ◌∙◌, arith, Bool, true, false, ◌&&◌, Option, none, some,
  leb, if◌then◌else◌, List, [], ◌∷◌, ◌++◌, append_assoc, length, length-append,
}
use p_base.Log.Levels.{LogSettings, SourceFile, LogLevel, level_value, log_level_name, is_logged}
use p_base.Log.Stream.{
  LogStream, avail, put, just_append, LogItem, check_buffer, is_empty, log_stream, append_place,
  sink, sink_of, Sunk, log_statement, log_items,
}
use p_base.Log.Stream.Line.{items_text, flushes, log_items-Shows}
use p_base.Log.Stream.Past.{IsSource, place_text, append_place_text}

-- The state of a stream with a buffer: a line is being put together, or none is.
pub record IsOpen (g : LogSettings) (s : LogStream) : Type 0 where
  pub source : IsSource s.source_file
  pub buffered : s.has_buffer ≡ true
  pub flush : s.auto_flush ≡ true

-- The start of a line, and the text in front of the items of a statement: the start, or what a
-- statement before has held back.
abbrev pub line_head : List ℕ → List ℕ → LogLevel → List ℕ
line_head date thread_name level = (date ++ thread_name) ++ log_level_name level

abbrev pub front : List ℕ → List ℕ → LogLevel → List ℕ → List ℕ
front date thread_name level [] = line_head date thread_name level
front date thread_name level (x ∷ held) = x ∷ held

abbrev pub front_file : SourceFile → LogStream → List ℕ → SourceFile
front_file file s [] = file
front_file file s (x ∷ held) = s.source_file

-- What a statement leaves and hands out, where `text` is all that it puts into the line, and `file` the
-- place that the line began at.
pub record Logs (g : LogSettings) (level : LogLevel) (text : List ℕ) (file : SourceFile) (go : Bool)
    (res : Sunk) : Type 0 where
  pub buffered :
      res.buffered ≡ (if go then some (text ++ (place_text file ++ b'\n' ∷ [])) else none)
  pub ef_output :
      res.ef_output ≡ (if leb g.ef_log_level (level_value level) then res.buffered else none)
  pub left : res.stream.text ≡ (if go then [] else text)
  pub flush : res.stream.auto_flush ≡ true

record Starts (date thread_name : List ℕ) (at : LogLevel) (place : SourceFile) (s after : LogStream)
    : Type 0 where
  text : after.text ≡ front date thread_name at s.text
  limit : after.limit ≡ s.limit
  level : after.log_level ≡ level_value at
  file : after.source_file ≡ front_file place s s.text
  flush : after.auto_flush ≡ s.auto_flush

log_stream-Starts :
    (g : LogSettings) (date thread_name : List ℕ) (level : LogLevel) (file : SourceFile)
    (s : LogStream)
    → s.has_buffer ≡ true
    → Starts date thread_name level file s (log_stream g date thread_name level file s)
unfolding log_stream check_buffer just_append put
log_stream-Starts g date thread_name level file s e = go s.text refl
  where
    go :
        (l : List ℕ)
        → s.text ≡ l
        → Starts date thread_name level file s (log_stream g date thread_name level file s)
    go [] k =
        let k' : is_empty s.text ≡ true = ap is_empty k in
        rw (e, k')
          (record {
            text =
                ap (λ l. ((l ++ date) ++ thread_name) ++ log_level_name level) k
                ∙ ap (front date thread_name level) (sym k);
            limit = refl;
            level = refl;
            file = ap (front_file file s) (sym k);
            flush = refl;
          })
    go (x ∷ held) k =
        let k' : is_empty s.text ≡ false = ap is_empty k in
        rw (e, k')
          (record {
            text = k ∙ ap (front date thread_name level) (sym k);
            limit = refl;
            level = refl;
            file = ap (front_file file s) (sym k);
            flush = refl;
          })

sink-Logs :
    (g : LogSettings) (level : LogLevel) (go : Bool) (s : LogStream)
    → IsSource s.source_file
    → s.source_file.name_size + 32 ≤ avail s
    → s.log_level ≡ level_value level
    → s.auto_flush ≡ go
    → Logs g level s.text s.source_file go (sink g s)
unfolding sink put
sink-Logs g level true s f h l k =
    let e =
      ap (λ t. t ++ b'\n' ∷ []) (append_place_text s f h)
      ∙ append_assoc s.text (place_text s.source_file) (b'\n' ∷ []) in
    subst (Logs g level s.text s.source_file true) (ap (λ o. sink_of o g s) (sym k)) (record {
      buffered = ap some e;
      ef_output =
          ap
            (λ n. if leb g.ef_log_level n then some ((append_place s).text ++ b'\n' ∷ []) else none)
            l;
      left = refl;
      flush = refl;
    })
sink-Logs g level false s f h l k =
    subst (Logs g level s.text s.source_file false) (ap (λ o. sink_of o g s) (sym k)) (record {
      buffered = refl;
      ef_output = none_lem (leb g.ef_log_level (level_value level));
      left = refl;
      flush = refl;
    })
  where
    none_lem : (b : Bool) → ◌≡◌ {A = Option (List ℕ)} none (if b then none else none)
    none_lem true = refl
    none_lem false = refl

front_file-IsSource :
    (file : SourceFile) (s : LogStream) (l : List ℕ)
    → IsSource file
    → IsSource s.source_file
    → IsSource (front_file file s l)
front_file-IsSource file s [] v w = v
front_file-IsSource file s (x ∷ l) v w = w

-- A statement whose level is logged, and whose line fits the buffer with its place in the source,
-- makes one line of the date, the thread, the level, the texts of its items, the place and the end of
-- line, behind what a statement with `noflush` has left in the buffer, if any, and hands it out; or,
-- with `noflush` among its items, leaves all of it in the buffer for the next statement. The line goes
-- to the output of errors as well if its level is that of errors.
pub log_statement-Logs :
    (g : LogSettings) (date thread_name : List ℕ) (level : LogLevel) (file : SourceFile)
    (items : List LogItem) (s : LogStream)
    → IsOpen g s
    → IsSource file
    → is_logged level g ≡ true
    → length (front date thread_name level s.text)
        + length (items_text items)
        + (front_file file s s.text).name_size
        + 32
      ≤ s.limit
    → Logs g level
        (front date thread_name level s.text ++ items_text items)
        (front_file file s s.text)
        (flushes items)
        (log_statement g date thread_name level file items s)
unfolding log_statement sink put
log_statement-Logs g date thread_name level file items s v f e h =
    let t = log_stream g date thread_name level file s in
    let a = log_stream-Starts g date thread_name level file s v.buffered in
    let k = length-append t.text (items_text items) in
    let b = log_items-Shows items t (omega (arith, a.limit, ap length a.text)) in
    let text = b.shown ∙ ap (λ l. l ++ items_text items) a.text in
    let place = b.file ∙ a.file in
    let u = log_items items t in
    let size = ap SourceFile.name_size place in
    let done =
      sink-Logs g level (flushes items) u
        (subst IsSource (sym place) (front_file-IsSource file s s.text f v.source))
        (omega (
          arith,
          a.limit,
          b.limit,
          size,
          ap length text,
          length-append (front date thread_name level s.text) (items_text items),
        ))
        (b.level ∙ a.level) (b.flush ∙ ap (λ c. c && flushes items) (a.flush ∙ v.flush)) in
    rw e (
      subst (λ l. Logs g level l (front_file file s s.text) (flushes items) (sink g u)) text
        (subst (λ f. Logs g level u.text f (flushes items) (sink g u)) place done))
