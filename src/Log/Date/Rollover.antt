-- ===== src/Log/Date/Rollover.antt =====
-- What `update_date` does on another day.
use p_base.Base.{ℕ, ◌/◌, ◌^◌, ◌<◌, ◌≡◌, ◌≢◌, refl, ◌∙◌, arith, ◌==◌, false, List, [], ◌∷◌}
use p_base.Log.Date.{
  Tm, min_one_day, us_one_min, LogDateImpl, format_text, format_to_string, update_date,
}

-- On another day than the last, the text is made for the number of minutes, taken for microseconds: it
-- is the text of a moment of the first day of 1970, and that day is kept as the last one, for a clock
-- of less than 2 ^ 62 microseconds.
pub update_date-rollover :
    (localtime : ℕ → Tm) (now : ℕ) (s : LogDateImpl)
    → now < 2 ^ 62
    → now / us_one_min / min_one_day ≢ s.time_day
    → ((update_date localtime now s).formatted ≡ format_text localtime (now / us_one_min))
      × ((update_date localtime now s).time_day ≡ 0)
unfolding update_date format_to_string
update_date-rollover localtime now s h k =
    let day : (now / us_one_min / min_one_day) == s.time_day ≡ false = ground arith in
    rw day (refl, omega arith)

-- The calls at several moments, one after the other.
unfoldable pub run_dates : (ℕ → Tm) → List ℕ → LogDateImpl → LogDateImpl
unfolding update_date
run_dates localtime [] s = s
run_dates localtime (now ∷ nows) s = run_dates localtime nows (update_date localtime now s)

-- A moment after the first day of 1970.
abbrev pub IsLate : ℕ → Type 0
IsLate now = (now < 2 ^ 62) × (now / us_one_min / min_one_day ≢ 0)

abbrev pub AllLate : List ℕ → Type 0
AllLate [] = Unit
AllLate (now ∷ nows) = IsLate now × AllLate nows

run_dates-day :
    (localtime : ℕ → Tm) (nows : List ℕ) (s : LogDateImpl)
    → AllLate nows
    → s.time_day ≡ 0
    → (run_dates localtime nows s).time_day ≡ 0
unfolding run_dates
run_dates-day localtime [] s h k = k
run_dates-day localtime (now ∷ nows) s ((h, d), hs) k =
    run_dates-day localtime nows (update_date localtime now s) hs
      (update_date-rollover localtime now s h (λ e. d (e ∙ k))).1

-- After a day has changed once, every later text is wrong: whatever calls came since, each text is again
-- that of a moment of the first day of 1970.
pub update_date-run_dates :
    (localtime : ℕ → Tm) (nows : List ℕ) (first now : ℕ) (s : LogDateImpl)
    → IsLate first
    → first / us_one_min / min_one_day ≢ s.time_day
    → AllLate nows
    → IsLate now
    → (update_date localtime now
        (run_dates localtime nows (update_date localtime first s))).formatted
      ≡ format_text localtime (now / us_one_min)
update_date-run_dates localtime nows first now s (h, d) k hs (h', d') =
    let t = update_date localtime first s in
    let a = run_dates-day localtime nows t hs (update_date-rollover localtime first s h k).1 in
    (update_date-rollover localtime now (run_dates localtime nows t) h' (λ e. d' (e ∙ a))).0
