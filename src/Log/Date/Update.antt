-- ===== src/Log/Date/Update.antt =====
-- A text that is updated is the text that would be made anew, where local time is UTC and the day is
-- the same.
use p_base.Base.{
  ℕ, ◌+◌, ◌/◌, ◌%◌, ◌<◌, ◌≡◌, refl, sym, ap, ap₂, ◌∙◌, arith, ◌==◌, List, Bool-cases, inl, inr,
  true,
}
use p_base.Log.Date.{
  Tm, min_one_day, us_one_min, LogDateImpl, stamp, format_text, format_to_string, write_us,
  write_min, update_date,
}

-- What `localtime_r` does where local time is UTC: the time of day, and a date that the day says.
pub record IsUtc (localtime : ℕ → Tm) : Type 0 where
  pub hour : (t : ℕ) → (localtime t).tm_hour ≡ t / 3600 % 24
  pub minute : (t : ℕ) → (localtime t).tm_min ≡ t / 60 % 60
  pub second : (t : ℕ) → (localtime t).tm_sec ≡ t % 60
  pub date :
      (t u : ℕ)
      → t / 86400 ≡ u / 86400
      → ((localtime t).tm_year ≡ (localtime u).tm_year)
        × ((localtime t).tm_mon ≡ (localtime u).tm_mon)
        × ((localtime t).tm_mday ≡ (localtime u).tm_mday)

write_us-stamp :
    (y m d h mi s u us : ℕ)
    → us < 60_000_000
    → write_us us (stamp y m d h mi s u) ≡ stamp y m d h mi (us / 1_000_000) (us % 1_000_000)
write_us-stamp y m d h mi s u us k =
    let e15 : us / 10 / 10 / 10 / 10 / 10 / 10 / 10 ≡ us / 1_000_000 / 10 % 10 = omega arith in
    let e16 : us / 10 / 10 / 10 / 10 / 10 / 10 % 10 ≡ us / 1_000_000 % 10 = omega arith in
    let e18 : us / 10 / 10 / 10 / 10 / 10 % 10 ≡ us % 1_000_000 / 10 / 10 / 10 / 10 / 10 % 10 =
      omega arith in
    let e19 : us / 10 / 10 / 10 / 10 % 10 ≡ us % 1_000_000 / 10 / 10 / 10 / 10 % 10 = omega arith in
    let e20 : us / 10 / 10 / 10 % 10 ≡ us % 1_000_000 / 10 / 10 / 10 % 10 = omega arith in
    let e21 : us / 10 / 10 % 10 ≡ us % 1_000_000 / 10 / 10 % 10 = omega arith in
    let e22 : us / 10 % 10 ≡ us % 1_000_000 / 10 % 10 = omega arith in
    let e23 : us % 10 ≡ us % 1_000_000 % 10 = omega arith in
    rw (e15, e16, e18, e19, e20, e21, e22, e23) refl

write_min-stamp :
    (y m d h mi s u n : ℕ)
    → n < 1440
    → write_min n (stamp y m d h mi s u) ≡ stamp y m d (n / 60) (n % 60) s u
write_min-stamp y m d h mi s u n k =
    let e9 : n / 60 / 10 % 10 ≡ n / 60 / 10 = omega arith in
    let e12 : n % 60 / 10 % 10 ≡ n % 60 / 10 = omega arith in rw (e9, e12) refl

stamp_cong :
    (y m d h mi s u y' m' d' h' mi' s' u' : ℕ)
    → (y ≡ y') × (m ≡ m') × (d ≡ d')
    → h ≡ h'
    → mi ≡ mi'
    → s ≡ s'
    → u ≡ u'
    → stamp y m d h mi s u ≡ stamp y' m' d' h' mi' s' u'
stamp_cong y m d h mi s u y' m' d' h' mi' s' u' (a, b, c) e f g k = rw (a, b, c, e, f, g, k) refl

-- The text of another moment of the day.
module _ (localtime : ℕ → Tm) (v : IsUtc localtime) (t now : ℕ)
    (h : t / us_one_min / min_one_day ≡ now / us_one_min / min_one_day) where
  same_date :
      ((localtime (t / 1_000_000)).tm_year + 1900 ≡ (localtime (now / 1_000_000)).tm_year + 1900)
      × ((localtime (t / 1_000_000)).tm_mon + 1 ≡ (localtime (now / 1_000_000)).tm_mon + 1)
      × ((localtime (t / 1_000_000)).tm_mday ≡ (localtime (now / 1_000_000)).tm_mday)
  same_date =
      let (y, m, d) = v.date (t / 1_000_000) (now / 1_000_000) (omega (arith, h)) in
      (ap (λ n. n + 1900) y, ap (λ n. n + 1) m, d)

  same_seconds : now % us_one_min / 1_000_000 ≡ (localtime (now / 1_000_000)).tm_sec
  same_seconds = omega (arith, v.second (now / 1_000_000))

  minute_text :
      now / us_one_min % min_one_day ≡ t / us_one_min % min_one_day
      → write_us (now % us_one_min) (format_text localtime t) ≡ format_text localtime now
  unfolding format_text
  minute_text e =
      let a = localtime (t / 1_000_000) in
      let b = localtime (now / 1_000_000) in
      write_us-stamp (a.tm_year + 1900) (a.tm_mon + 1) a.tm_mday a.tm_hour a.tm_min a.tm_sec
        (t % 1_000_000) (now % us_one_min) (omega arith)
      ∙ stamp_cong (a.tm_year + 1900) (a.tm_mon + 1) a.tm_mday a.tm_hour a.tm_min
          (now % us_one_min / 1_000_000) (now % us_one_min % 1_000_000) (b.tm_year + 1900)
          (b.tm_mon + 1) b.tm_mday b.tm_hour b.tm_min b.tm_sec (now % 1_000_000) same_date
          (omega (arith, h, e, v.hour (t / 1_000_000), v.hour (now / 1_000_000)))
          (omega (arith, h, e, v.minute (t / 1_000_000), v.minute (now / 1_000_000))) same_seconds
          (omega arith)

  other_text :
      write_min
        (now / us_one_min % min_one_day)
        (write_us (now % us_one_min) (format_text localtime t))
      ≡ format_text localtime now
  unfolding format_text
  other_text =
      let a = localtime (t / 1_000_000) in
      let b = localtime (now / 1_000_000) in
      ap (write_min (now / us_one_min % min_one_day)) (
        write_us-stamp (a.tm_year + 1900) (a.tm_mon + 1) a.tm_mday a.tm_hour a.tm_min a.tm_sec
          (t % 1_000_000) (now % us_one_min) (omega arith))
      ∙ write_min-stamp (a.tm_year + 1900) (a.tm_mon + 1) a.tm_mday a.tm_hour a.tm_min
          (now % us_one_min / 1_000_000) (now % us_one_min % 1_000_000)
          (now / us_one_min % min_one_day) (omega arith)
      ∙ stamp_cong (a.tm_year + 1900) (a.tm_mon + 1) a.tm_mday (now / us_one_min % min_one_day / 60)
          (now / us_one_min % min_one_day % 60) (now % us_one_min / 1_000_000)
          (now % us_one_min % 1_000_000) (b.tm_year + 1900) (b.tm_mon + 1) b.tm_mday b.tm_hour
          b.tm_min b.tm_sec (now % 1_000_000) same_date (omega (arith, v.hour (now / 1_000_000)))
          (omega (arith, v.minute (now / 1_000_000))) same_seconds (omega arith)

-- Where local time is UTC and the day is the same, updating the date and time made for one moment
-- gives exactly what would be made anew for the other.
pub update_date-format_to_string :
    (localtime : ℕ → Tm) (t now : ℕ)
    → IsUtc localtime
    → t / us_one_min / min_one_day ≡ now / us_one_min / min_one_day
    → update_date localtime now (format_to_string localtime t) ≡ format_to_string localtime now
unfolding update_date format_to_string
update_date-format_to_string localtime t now v h =
    let now_min = now / us_one_min % min_one_day in
    let t_min = t / us_one_min % min_one_day in
    let mk : ℕ → ℕ → List ℕ → LogDateImpl =
      λ d m l. record { time_day = d; time_min = m; time_us = now % us_one_min; formatted = l } in
    let day : (now / us_one_min / min_one_day) == (t / us_one_min / min_one_day) ≡ true =
      ground arith in
    elim (Bool-cases (now_min == t_min)) [
      | inl e ↦
          let k : now_min ≡ t_min = ground arith in
          rw (day, e)
            (ap₂ (λ d m. mk d m (write_us (now % us_one_min) (format_text localtime t))) h (sym k)
              ∙ ap (mk (now / us_one_min / min_one_day) now_min)
                  (minute_text localtime v t now h k))
      | inr e ↦
          rw (day, e)
            (ap
                (λ d.
                  mk d now_min
                    (write_min now_min (write_us (now % us_one_min) (format_text localtime t))))
                h
              ∙ ap (mk (now / us_one_min / min_one_day) now_min) (other_text localtime v t now h))
    ]
