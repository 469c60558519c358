-- ===== src/Calendar/Local.antt =====
-- `localtime_r` against the calendar that counts days.
use l4ertl.Base.{
  ◌≢◌, dec_lt, ◌⊎◌, ℕ, zero, suc, List, [], ◌∷◌, some, Bool, true, false, ◌+◌, ◌-◌, ◌*◌, ◌/◌, ◌%◌,
  ◌<◌, ◌≤◌, ◌≡◌, if◌then◌else◌, word, length, arith, refl, ap, ◌∙◌, inl, inr, ◌^◌, int_ltb,
}
use l4ertl.Calendar.{
  find_month, Tm, isleap, mktime, localtime_r, count_months, days_to_month, days_to_month_leap,
  days_less_leaps, year_of, yday_of, epoch_year, tm_year_base, leap_years_from_epoch, int_div,
  int_rem, secs_per_day,
}
use l4ertl.Calendar.Days.{
  sum_of_first-grows, sum_of_first-suc, IsDate, day_of_year, day_of_year-lt, days_of_years,
  days_of_years-eq, leap_year, isleap-leap_year, month_lengths, prefix_sums, sum_of_first,
  seconds_since_epoch, entry, mktime-seconds, days_to_month-sums,
}

-- The loop stops behind the month of the day.
count_months-prefix_sums :
    (n a d : ℕ) (xs : List ℕ)
    → n < length xs
    → a + sum_of_first n xs ≤ d
    → d < a + sum_of_first (suc n) xs
    → a + sum_of_first (suc n) xs < 2 ^ 31
    → count_months (prefix_sums a xs) d ≡ some (suc n)
unfolding count_months prefix_sums
count_months-prefix_sums n a d [] lt low high small = absurd (omega (arith, lt))
count_months-prefix_sums zero a d (x ∷ []) lt low high small =
    let passed : int_ltb d a ≡ false = ground (arith, low, high, small) in
    let stops : int_ltb d (a + x) ≡ true = ground (arith, low, high, small) in
    rw (passed, stops) refl
count_months-prefix_sums zero a d (x ∷ y ∷ xs) lt low high small =
    let passed : int_ltb d a ≡ false = ground (arith, low, high, small) in
    let stops : int_ltb d (a + x) ≡ true = ground (arith, low, high, small) in
    rw (passed, stops) refl
count_months-prefix_sums (suc n) a d (x ∷ xs) lt low high small =
    let passed : int_ltb d a ≡ false = ground (arith, low, high, small) in
    let later =
      count_months-prefix_sums n (a + x) d xs (omega (arith, lt)) (omega (arith, low))
        (omega (arith, high)) (omega (arith, small)) in
    rw (passed, later) refl

days_less_leaps-eq :
    (days y : ℕ) → days < 2 ^ 31 → y ≤ 68 → y ≤ days → days_less_leaps days y ≡ days - (y + 1) / 4
days_less_leaps-eq days y small le below =
    let leaps : leap_years_from_epoch ((y + epoch_year) % word) ≡ (y + 1) / 4 =
      ground (arith, le) in
    rw leaps (omega (arith, small, le, below))

int_div-small : (a n : ℕ) → a < 2 ^ 31 → int_div a n ≡ a / n
int_div-small a n small = ground (arith, small)

int_rem-small : (a n : ℕ) → a < 2 ^ 31 → int_rem a n ≡ a % n
int_rem-small a n small = ground (arith, small)

-- The year that `localtime_r` finds for the day `d` of the year 1970 + `n`, and the day.
module _ (n d days : ℕ) (late : n ≤ 67) (eq : days ≡ 365 * n + (n + 1) / 4 + d)
    (in_year : d < (if leap_year (epoch_year + n) then 366 else 365)) where
  within : (d < 365) ⊎ ((d ≡ 365) × ((n + 2) % 4 ≡ 0))
  within = elim (dec_lt d 365) [ yes lt ↦ inl lt | no ge ↦ inr (ground (arith, ge, in_year)) ]

  -- The days less those of the leap years up to the first guess of the year.
  first_guess : (days / 365 ≤ 68) × (days / 365 ≤ days) × ((days - (days / 365 + 1) / 4) / 365 ≡ n)
  first_guess = elim within [
    | inl lt ↦ omega (arith, lt, eq, late)
    | inr (last, leap) ↦ omega (arith, last, leap, eq, late)
  ]

  few : days < 2 ^ 31
  few = omega (arith, eq, late, first_guess.0)

  pub year_of-eq : year_of days ≡ n
  year_of-eq =
      let e1 : days_less_leaps days (int_div days 365) ≡ days - (days / 365 + 1) / 4 =
        ap (days_less_leaps days) (int_div-small days 365 few)
        ∙ days_less_leaps-eq days (days / 365) few first_guess.0 first_guess.1 in
      ap (λ a. int_div a 365) e1
      ∙ int_div-small (days - (days / 365 + 1) / 4) 365 (omega (arith, few))
      ∙ first_guess.2

  pub yday_of-eq : yday_of days ≡ d % 365
  yday_of-eq =
      let e1 : days_less_leaps days (year_of days) ≡ 365 * n + d =
        ap (days_less_leaps days) year_of-eq
        ∙ days_less_leaps-eq days n few (omega (arith, late)) (omega (arith, eq))
        ∙ omega (arith, eq) in
      ap (λ a. int_rem a 365) e1
      ∙ int_rem-small (365 * n + d) 365 (omega (arith, few, eq))
      ∙ omega arith

-- The table of the months, of which the loop passes those up to the month of the day.
months_found :
    (leap : Bool) (mon k d : ℕ)
    → mon < 12
    → d ≡ sum_of_first mon (month_lengths leap) + k
    → k < entry mon (month_lengths leap)
    → count_months (if leap then days_to_month_leap else days_to_month) d ≡ some (suc mon)
unfolding prefix_sums
months_found true mon k d lt e in_month =
    count_months-prefix_sums mon 0 d (month_lengths true) lt (omega (arith, e))
      (omega (arith, e, in_month, sum_of_first-suc mon (month_lengths true)))
      (omega (arith, sum_of_first-grows (suc mon) 12 (month_lengths true) (omega (arith, lt))))
months_found false mon k d lt e in_month =
    count_months-prefix_sums mon 0 d (month_lengths false) lt (omega (arith, e))
      (omega (arith, e, in_month, sum_of_first-suc mon (month_lengths false)))
      (omega (arith, sum_of_first-grows (suc mon) 12 (month_lengths false) (omega (arith, lt))))

-- The parts of the seconds of a day.
parts-eq :
    (days h m s : ℕ)
    → ((days * 24 + h) * 60 + m) * 60 + s < 2 ^ 31
    → h < 24
    → m < 60
    → s < 60
    → (int_div (((days * 24 + h) * 60 + m) * 60 + s) secs_per_day ≡ days)
      × (int_div (int_rem (((days * 24 + h) * 60 + m) * 60 + s) secs_per_day) 3600 ≡ h)
      × (int_div (int_rem (((days * 24 + h) * 60 + m) * 60 + s) 3600) 60 ≡ m)
      × (int_rem (((days * 24 + h) * 60 + m) * 60 + s) 60 ≡ s)
parts-eq days h m s small hh hm hs = (
  ground (arith, small, hh, hm, hs),
  ground (arith, small, hh, hm, hs),
  ground (arith, small, hh, hm, hs),
  ground (arith, small, hh, hm, hs),
)

wday-eq : (days : ℕ) → days ≤ 24837 → int_rem ((days + 4) % word) 7 ≡ (days + 4) % 7
wday-eq days few = ground (arith, few)

-- The days since the start of 1970.
abbrev pub days_since_epoch : Tm → ℕ
days_since_epoch t = days_of_years (t.tm_year - 70) + day_of_year t

-- The time with another day of the same year.
abbrev pub at_day : Tm → ℕ → ℕ → ℕ → Tm
at_day t yday mon mday = record t {
  tm_mon = mon;
  tm_mday = mday;
  tm_yday = yday;
  tm_wday = (days_since_epoch t + 4) % 7;
  tm_isdst = 0;
}

module _ (t : Tm) (date : IsDate t) (mon mday : ℕ) (month : mon < 12) (first : 1 ≤ mday)
    (in_month : mday ≤ entry mon (month_lengths (leap_year (tm_year_base + t.tm_year))))
    (same : day_of_year t % 365
      ≡ sum_of_first mon (month_lengths (leap_year (tm_year_base + t.tm_year))) + (mday - 1)) where
  abbrev n : ℕ
  n = t.tm_year - 70

  abbrev before : ℕ
  before = sum_of_first mon (month_lengths (leap_year (tm_year_base + t.tm_year)))

  abbrev timep : ℕ
  timep = seconds_since_epoch t

  year_n : epoch_year + n ≡ tm_year_base + t.tm_year
  year_n = omega (arith, date.from_1970)

  late : n ≤ 67
  late = omega (arith, date.to_2037)

  days_n : days_since_epoch t ≡ 365 * n + (n + 1) / 4 + day_of_year t
  days_n = omega (arith, days_of_years-eq n (omega (arith, late)))

  in_year : day_of_year t < (if leap_year (epoch_year + n) then 366 else 365)
  in_year = rw year_n (day_of_year-lt t date)

  below_366 : day_of_year t < 366
  below_366 = ground (arith, in_year)

  find_month-at_day :
      find_month timep (days_since_epoch t) t.tm_year (day_of_year t % 365)
      ≡ some (at_day t (day_of_year t % 365) mon mday)
  unfolding find_month
  find_month-at_day =
      let p =
        parts-eq (days_since_epoch t) t.tm_hour t.tm_min t.tm_sec (mktime-seconds t date).1
          date.hour date.minute date.second in
      let year = tm_year_base + t.tm_year in
      let whole : (t.tm_year + tm_year_base) % word ≡ year = omega (arith, date.to_2037) in
      let leap : isleap ((t.tm_year + tm_year_base) % word) ≡ leap_year year =
        ap isleap whole ∙ isleap-leap_year year (omega (arith, date.to_2037)) in
      let passed =
        months_found (leap_year year) mon (mday - 1) (day_of_year t % 365) month same
          (omega (arith, first, in_month)) in
      let wday : int_rem ((days_since_epoch t + 4) % word) 7 ≡ (days_since_epoch t + 4) % 7 =
        wday-eq (days_since_epoch t) (omega (arith, days_n, late, below_366)) in
      let day : (day_of_year t % 365 + word - before + 1) % word ≡ mday =
        omega (arith, same, first) in
      let mon_eq : (suc mon + word - 1) % word ≡ mon = omega (arith, month) in
      rw (leap, passed, leap, days_to_month-sums (leap_year year) mon month, find_month)
        (λ i. some (record {
          tm_sec = p.3 i;
          tm_min = p.2 i;
          tm_hour = p.1 i;
          tm_mday = day i;
          tm_mon = mon_eq i;
          tm_year = t.tm_year;
          tm_wday = wday i;
          tm_yday = day_of_year t % 365;
          tm_isdst = 0;
        }))

  pub localtime_r-at_day : localtime_r timep ≡ some (at_day t (day_of_year t % 365) mon mday)
  unfolding localtime_r
  localtime_r-at_day =
      let p =
        parts-eq (days_since_epoch t) t.tm_hour t.tm_min t.tm_sec (mktime-seconds t date).1
          date.hour date.minute date.second in
      let year = year_of-eq n (day_of_year t) (days_since_epoch t) late days_n in_year in
      let yday = yday_of-eq n (day_of_year t) (days_since_epoch t) late days_n in_year in
      let tm_year : (year_of (days_since_epoch t) + 70) % word ≡ t.tm_year =
        ap (λ y. (y + 70) % word) year ∙ omega (arith, date.from_1970, date.to_2037) in
      ap (λ a. find_month timep a ((year_of a + 70) % word) (yday_of a)) p.0
      ∙ ap (λ a. find_month timep (days_since_epoch t) a (yday_of (days_since_epoch t))) tm_year
      ∙ ap (find_month timep (days_since_epoch t) t.tm_year) yday
      ∙ find_month-at_day

-- For a time from 1970 to the end of 2037, but not on the 31st of December of a leap year, `localtime_r`
-- of what `mktime` returns gives the same time back, with the day of the year, the day of the week,
-- which was a Thursday at the start of 1970, and no daylight saving.
pub localtime_r-mktime :
    (t : Tm)
    → IsDate t
    → day_of_year t ≢ 365
    → (timep : ℕ) × (mktime t ≡ some timep)
      × (localtime_r timep ≡ some (at_day t (day_of_year t) t.tm_mon t.tm_mday))
localtime_r-mktime t date ne =
    let whole : day_of_year t % 365 ≡ day_of_year t = ground (arith, day_of_year-lt t date, ne) in
    (
      seconds_since_epoch t,
      (mktime-seconds t date).0,
      localtime_r-at_day t date t.tm_mon t.tm_mday date.month date.first_day date.last_day whole
          ∙ ap (λ d. some (at_day t d t.tm_mon t.tm_mday)) whole,
    )

-- On the 31st of December of a leap year, it gives the 1st of January of that year.
pub localtime_r-last_day :
    (t : Tm)
    → IsDate t
    → day_of_year t ≡ 365
    → (timep : ℕ) × (mktime t ≡ some timep) × (localtime_r timep ≡ some (at_day t 0 0 1))
localtime_r-last_day t date last =
    let zeroth : day_of_year t % 365 ≡ 0 = omega (arith, last) in
    (
      seconds_since_epoch t,
      (mktime-seconds t date).0,
      localtime_r-at_day t date 0 1 (omega arith) (omega arith) (omega arith) zeroth
          ∙ ap (λ d. some (at_day t d 0 1)) zeroth,
    )
