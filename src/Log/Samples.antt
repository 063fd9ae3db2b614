-- ===== src/Log/Samples.antt =====
-- The theorems on levels and messages at concrete streams.
use p_base.Base.{
  ℕ, ◌+◌, ◌*◌, ◌^◌, ◌/◌, ◌%◌, ◌≡◌, ap, refl, arith, true, not, ◌&&◌, ◌||◌, ◌==◌, some, List, [],
  ◌∷◌, ◌++◌, length, leb, ltb,
}
use p_base.Convert.{convert_pointer, convert_integer, pos}
use p_base.Log.Levels.{SourceFile, warn, default_settings, is_logged, source_file}
use p_base.Log.Levels.Laws.{IsLastPart, source_file-IsLastPart}
use p_base.Log.Stream.{
  LogStream, LogItem, string, integer, char, appendf, append_pointer, sink, append_place, log_items,
  log_statement,
}
use p_base.Log.Stream.Bounds.{IsStream, Grows, log_items-Grows}
use p_base.Log.Stream.Past.{IsSource, reach_lem}
use p_base.Log.Stream.Line.{items_text, flushes}
use p_base.Log.Stream.Statement.{IsOpen, Logs, front, log_statement-Logs}
use p_base.Log.Sinker.{new_sinker}
use p_base.Log.Sinker.Append.{Keeps}
use p_base.Log.Sinker.Rounds.{new_sinker-IsSinker}
use p_base.Log.Date.{Tm, format_text, format_to_string, update_date}
use p_base.Log.Date.Update.{IsUtc, update_date-format_to_string}
use p_base.Log.Date.Rollover.{run_dates, update_date-run_dates}
use p_base.Log.Handover.{hand_over, sink-Keeps}

-- "a/b.c", line 7
abbrev path : List ℕ
path = b'a' ∷ b'/' ∷ b'b' ∷ b'.' ∷ b'c' ∷ []

source_file-IsLastPart_example : IsLastPart path 7 (source_file path 7)
source_file-IsLastPart_example = source_file-IsLastPart path 7

abbrev here : SourceFile
here = record { file_name = b'b' ∷ b'.' ∷ b'c' ∷ []; name_size = 3; file_line = 7 }

here-IsSource : IsSource here
here-IsSource = record { size = refl; line = omega arith }

-- A stream with room for `n` characters.
abbrev with_room : ℕ → List ℕ → LogStream
with_room n text = record {
  has_buffer = true;
  limit = n;
  text = text;
  auto_flush = true;
  log_level = 3;
  source_file = here;
  reach = length text;
}

abbrev two : List ℕ
two = b'a' ∷ b'b' ∷ []

abbrev items : List LogItem
items = string (some two) ∷ integer (pos 5) ∷ char b'!' ∷ []

full-IsStream : IsStream (with_room 2 two)
full-IsStream = record { within = omega arith; reached = omega arith }

log_items-Grows_example : Grows (with_room 2 two) (log_items items (with_room 2 two))
log_items-Grows_example =
    log_items-Grows items (with_room 2 two) (tt, (omega arith, (tt, tt))) full-IsStream

roomy-IsStream : IsStream (with_room 20 two)
roomy-IsStream = record { within = omega arith; reached = omega arith }

reach_lem_example :
    (leb (append_pointer (2 ^ 63) (with_room 20 two)).reach 20
      ≡ not (18 == 18 && length (convert_pointer (2 ^ 63)) == 16))
    × (leb (appendf (some two) (with_room 20 two)).reach 20 ≡ (18 == 0 || ltb 2 18))
    × (leb (sink default_settings (with_room 20 two)).stream.reach 20 ≡ ltb 2 20)
reach_lem_example =
    reach_lem default_settings (2 ^ 63) two (with_room 20 two) (omega arith) roomy-IsStream
      here-IsSource (omega arith) refl

room-IsOpen : IsOpen default_settings (with_room 2048 [])
room-IsOpen = record { source = here-IsSource; buffered = refl; flush = refl }

log_statement-Logs_example :
    Logs default_settings warn
      (front two two warn [] ++ items_text items)
      here
      (flushes items)
      (log_statement default_settings two two warn here items (with_room 2048 []))
unfolding items_text flushes is_logged convert_integer
log_statement-Logs_example =
    log_statement-Logs default_settings two two warn here items (with_room 2048 []) room-IsOpen
      here-IsSource refl (omega arith)

sink-Keeps_example :
    Keeps new_sinker
      ((append_place (with_room 2 two)).text ++ b'\n' ∷ [])
      (hand_over (sink default_settings (with_room 2 two)).buffered new_sinker)
sink-Keeps_example =
    sink-Keeps default_settings (with_room 2 two) new_sinker full-IsStream here-IsSource refl
      (omega arith) new_sinker-IsSinker

-- A calendar of one month without end.
abbrev utc : ℕ → Tm
utc t = record {
  tm_year = 70;
  tm_mon = 0;
  tm_mday = t / 86400 + 1;
  tm_hour = t / 3600 % 24;
  tm_min = t / 60 % 60;
  tm_sec = t % 60;
}

utc-IsUtc : IsUtc utc
utc-IsUtc = record {
  hour = λ t. refl;
  minute = λ t. refl;
  second = λ t. refl;
  date = λ t u h. (refl, refl, ap (λ n. n + 1) h);
}

-- 90 seconds and a half after another moment, in the next minute.
update_date-format_to_string_example :
    update_date utc 100_500_000 (format_to_string utc 10_000_000) ≡ format_to_string utc 100_500_000
update_date-format_to_string_example =
    update_date-format_to_string utc 10_000_000 100_500_000 utc-IsUtc refl

abbrev a_day : ℕ
a_day = 86_400_000_000

update_date-run_dates_example :
    (update_date utc (3 * a_day) (
      run_dates utc
        ((2 * a_day + 5) ∷ [])
        (update_date utc (2 * a_day) (format_to_string utc a_day)))).formatted
    ≡ format_text utc (3 * a_day / 60_000_000)
unfolding format_to_string
update_date-run_dates_example =
    update_date-run_dates utc ((2 * a_day + 5) ∷ []) (2 * a_day) (3 * a_day)
      (format_to_string utc a_day) (omega arith, omega arith) (omega arith)
      ((omega arith, omega arith), tt) (omega arith, omega arith)
