-- ===== src/Log/Date.antt =====
-- `LogDateImpl` of src/log.cpp: the date and time in front of a line, kept from call to call and
-- changed where it must be, with microseconds as `LOG_TIME_TO_US` is defined. The text is the list of
-- its characters, without the `\0`. `localtime` stands for the C library's `localtime_r`.
pub mod Update
pub mod Rollover
use p_base.Base.{ℕ, zero, suc, ◌+◌, ◌*◌, ◌/◌, ◌%◌, ◌==◌, if◌then◌else◌, List, [], ◌∷◌, ◌++◌}

pub record Tm : Type 0 where
  pub tm_year : ℕ
  pub tm_mon : ℕ
  pub tm_mday : ℕ
  pub tm_hour : ℕ
  pub tm_min : ℕ
  pub tm_sec : ℕ

-- `kMinOneDay` and `kUSOneMin`
abbrev pub min_one_day : ℕ
min_one_day = 60 * 24

abbrev pub us_one_min : ℕ
us_one_min = 1_000_000 * 60

pub record LogDateImpl : Type 0 where
  pub time_day : ℕ
  pub time_min : ℕ
  pub time_us : ℕ
  pub formatted : List ℕ

-- `%0wd` of a number of at most `w` digits.
abbrev pub digits : ℕ → ℕ → List ℕ
digits zero v = []
digits (suc w) v = digits w (v / 10) ++ (v % 10 + b'0') ∷ []

-- The text that `snprintf` makes: "%04d%02d%02d-%02d:%02d:%02d:%06lu ".
abbrev pub stamp : ℕ → ℕ → ℕ → ℕ → ℕ → ℕ → ℕ → List ℕ
stamp year mon mday hour min sec us =
    digits 4 year
    ++ (digits 2 mon
        ++ (digits 2 mday
            ++ b'-'
              ∷ (digits 2 hour
                  ++ b':'
                    ∷ (digits 2 min
                        ++ b':' ∷ (digits 2 sec ++ b':' ∷ (digits 6 us ++ b' ' ∷ []))))))

abbrev pub stamp_of : Tm → ℕ → List ℕ
stamp_of tm us =
    stamp (tm.tm_year + 1900) (tm.tm_mon + 1) tm.tm_mday tm.tm_hour tm.tm_min tm.tm_sec us

-- The text of a moment, and all that `format_to_string` leaves.
unfoldable pub format_text : (ℕ → Tm) → ℕ → List ℕ
format_text localtime timestamp =
    stamp_of (localtime (timestamp / 1_000_000)) (timestamp % 1_000_000)

unfoldable pub format_to_string : (ℕ → Tm) → ℕ → LogDateImpl
unfolding format_text
format_to_string localtime timestamp = record {
  time_day = timestamp / us_one_min / min_one_day;
  time_min = timestamp / us_one_min % min_one_day;
  time_us = timestamp % us_one_min;
  formatted = format_text localtime timestamp;
}

abbrev pub set_at : ℕ → ℕ → List ℕ → List ℕ
set_at i v [] = []
set_at zero v (x ∷ xs) = v ∷ xs
set_at (suc i) v (x ∷ xs) = x ∷ set_at i v xs

-- The digits of the seconds and microseconds, from the last one on.
abbrev pub write_us : ℕ → List ℕ → List ℕ
write_us tmp l = set_at 15 (tmp / 10 / 10 / 10 / 10 / 10 / 10 / 10 + b'0') (
    set_at 16 (tmp / 10 / 10 / 10 / 10 / 10 / 10 % 10 + b'0') (
      set_at 18 (tmp / 10 / 10 / 10 / 10 / 10 % 10 + b'0') (
        set_at 19 (tmp / 10 / 10 / 10 / 10 % 10 + b'0') (
          set_at 20 (tmp / 10 / 10 / 10 % 10 + b'0') (
            set_at 21 (tmp / 10 / 10 % 10 + b'0')
              (set_at 22 (tmp / 10 % 10 + b'0') (set_at 23 (tmp % 10 + b'0') l)))))))

abbrev pub write_min : ℕ → List ℕ → List ℕ
write_min time_min l = set_at 9 (time_min / 60 / 10 + b'0') (
    set_at 10 (time_min / 60 % 10 + b'0')
      (set_at 12 (time_min % 60 / 10 + b'0') (set_at 13 (time_min % 60 % 10 + b'0') l)))

-- `update_date`, at the moment `now`.
unfoldable pub update_date : (ℕ → Tm) → ℕ → LogDateImpl → LogDateImpl
unfolding format_to_string
update_date localtime now s =
    let time_us = now % us_one_min in
    let timestamp = now / us_one_min in
    let time_min = timestamp % min_one_day in
    let time_day = timestamp / min_one_day in
    let written = write_us time_us s.formatted in
    if time_day == s.time_day
    then (if time_min == s.time_min
        then record s { time_us = time_us; formatted = written }
        else record s {
          time_us = time_us;
          time_min = time_min;
          formatted = write_min time_min written;
        })
    else format_to_string localtime timestamp
