-- ===== src/Log/Levels.antt =====
-- The levels and the place of a message: include/p/base/log.h, and the settings of `Log` in
-- src/logger.cpp and include/p/base/logging.h.
pub mod Laws
use p_base.Base.{
  ℕ, zero, suc, ◌+◌, ◌*◌, ◌-◌, Bool, true, false, Option, none, some, ltb, leb, ◌==◌, if◌then◌else◌,
  List, [], ◌∷◌, length, drop,
}

pub data LogLevel : Type 0 where
  trace : LogLevel
  debug : LogLevel
  info : LogLevel
  warn : LogLevel
  error : LogLevel
  fatal : LogLevel
  log_level_count : LogLevel

-- The value of the enumerator.
abbrev pub level_value : LogLevel → ℕ
level_value trace = 0
level_value debug = 1
level_value info = 2
level_value warn = 3
level_value error = 4
level_value fatal = 5
level_value log_level_count = 6

-- `LogLevelName`; there is none for the count.
abbrev pub log_level_name : LogLevel → List ℕ
log_level_name trace = b' ' ∷ b'T' ∷ b'R' ∷ b'A' ∷ b'C' ∷ b'E' ∷ b' ' ∷ []
log_level_name debug = b' ' ∷ b'D' ∷ b'E' ∷ b'B' ∷ b'U' ∷ b'G' ∷ b' ' ∷ []
log_level_name info = b' ' ∷ b' ' ∷ b'I' ∷ b'N' ∷ b'F' ∷ b'O' ∷ b' ' ∷ []
log_level_name warn = b' ' ∷ b' ' ∷ b'W' ∷ b'A' ∷ b'R' ∷ b'N' ∷ b' ' ∷ []
log_level_name error = b' ' ∷ b'E' ∷ b'R' ∷ b'R' ∷ b'O' ∷ b'R' ∷ b' ' ∷ []
log_level_name fatal = b' ' ∷ b'F' ∷ b'A' ∷ b'T' ∷ b'A' ∷ b'L' ∷ b' ' ∷ []
log_level_name log_level_count = []

-- `g_log_level`, `g_ef_log_level` and `g_max_length_per_log`. A level is a number, as a cast can
-- make an enumerator of any.
pub record LogSettings : Type 0 where
  pub log_level : ℕ
  pub ef_log_level : ℕ
  pub max_length_per_log : ℕ

abbrev pub default_settings : LogSettings
default_settings = record { log_level = 2; ef_log_level = 4; max_length_per_log = 2 * 1024 }

unfoldable pub set_log_level : ℕ → LogSettings → Bool × LogSettings
set_log_level log_min_level g =
    if ltb (level_value log_level_count) log_min_level
    then (false, g)
    else (true, record g { log_level = log_min_level })

unfoldable pub set_ef_log_level : ℕ → LogSettings → Bool × LogSettings
set_ef_log_level ef_log_min_level g =
    if ltb (level_value log_level_count) ef_log_min_level
    then (false, g)
    else (true, record g { ef_log_level = ef_log_min_level })

unfoldable pub set_max_length_per_log : ℕ → LogSettings → Bool × LogSettings
set_max_length_per_log max_len g =
    if ltb max_len 1024
    then (false, g)
    else (if ltb (16 * 1024 * 1024) max_len
        then (false, g)
        else (true, record g { max_length_per_log = max_len }))

-- Whether a statement of a level logs: `LOG_TRACE`, `LOG_DEBUG` and `LOG_INFO` test the level, the
-- others do not.
unfoldable pub is_logged : LogLevel → LogSettings → Bool
is_logged trace g = leb g.log_level (level_value trace)
is_logged debug g = leb g.log_level (level_value debug)
is_logged info g = leb g.log_level (level_value info)
is_logged level g = true

-- `__builtin_strrchr`: the text from the last `c` on.
abbrev pub or_here : ℕ → List ℕ → Option (List ℕ) → Option (List ℕ)
or_here c xs (some ys) = some ys
or_here c [] none = none
or_here c (x ∷ xs) none = if x == c then some (x ∷ xs) else none

abbrev pub last_from : ℕ → List ℕ → Option (List ℕ)
last_from c [] = none
last_from c (x ∷ xs) = or_here c (x ∷ xs) (last_from c xs)

pub record SourceFile : Type 0 where
  pub file_name : List ℕ
  pub name_size : ℕ
  pub file_line : ℕ

unfoldable pub source_file_of : List ℕ → ℕ → Option (List ℕ) → SourceFile
source_file_of name line none = record {
  file_name = name;
  name_size = length name;
  file_line = line;
}
source_file_of name line (some slash) = record {
  file_name = drop 1 slash;
  name_size = length name - (length name - length (drop 1 slash));
  file_line = line;
}

-- The constructor; `name` is the literal without its `\0`.
unfoldable pub source_file : List ℕ → ℕ → SourceFile
unfolding source_file_of
source_file name line = source_file_of name line (last_from b'/' name)
