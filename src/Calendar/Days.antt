-- ===== src/Calendar/Days.antt =====
-- `mktime` against a calendar that counts days.
use l4ertl.Base.{
  not, ◌&&◌, ◌||◌, ℕ, zero, suc, List, [], ◌∷◌, some, Bool, true, false, ◌+◌, ◌-◌, ◌*◌, ◌/◌, ◌%◌,
  ◌<◌, ◌≤◌, ◌≡◌, ◌==◌, if◌then◌else◌, word, length, arith, refl, ap, ◌∙◌, ◌^◌,
}
use l4ertl.Calendar.{
  leap_years_from_epoch, tm_year_base, Tm, isleap, mktime, get_elem?, days_to_month,
  days_to_month_leap, epoch_year,
}

-- The months of a year, and the days before the month of a number.
abbrev pub month_lengths : Bool → List ℕ
month_lengths leap =
    31 ∷ (if leap then 29 else 28) ∷ 31 ∷ 30 ∷ 31 ∷ 30 ∷ 31 ∷ 31 ∷ 30 ∷ 31 ∷ 30 ∷ 31 ∷ []

abbrev pub sum_of_first : ℕ → List ℕ → ℕ
sum_of_first zero xs = 0
sum_of_first (suc n) [] = 0
sum_of_first (suc n) (x ∷ xs) = x + sum_of_first n xs

-- A leap year is one that 400 divides, or 4 but not 100.
abbrev pub leap_year : ℕ → Bool
leap_year y = y % 400 == 0 || (y % 4 == 0 && not (y % 100 == 0))

-- The days of the `n` years from 1970 on.
abbrev pub days_of_years : ℕ → ℕ
days_of_years zero = 0
days_of_years (suc n) = days_of_years n + (if leap_year (epoch_year + n) then 366 else 365)

unfoldable pub prefix_sums : ℕ → List ℕ → List ℕ
prefix_sums a [] = a ∷ []
prefix_sums a (x ∷ xs) = a ∷ prefix_sums (a + x) xs

get_elem?-prefix_sums :
    (n a : ℕ) (xs : List ℕ)
    → n ≤ length xs
    → get_elem? (prefix_sums a xs) n ≡ some (a + sum_of_first n xs)
unfolding prefix_sums
get_elem?-prefix_sums zero a [] le = ap some (omega arith)
get_elem?-prefix_sums zero a (x ∷ xs) le = ap some (omega arith)
get_elem?-prefix_sums (suc n) a [] le = absurd (omega (arith, le))
get_elem?-prefix_sums (suc n) a (x ∷ xs) le =
    get_elem?-prefix_sums n (a + x) xs (omega (arith, le)) ∙ ap some (omega arith)

pub days_of_years-eq : (n : ℕ) → n ≤ 130 → days_of_years n ≡ 365 * n + (n + 1) / 4
days_of_years-eq zero le = refl
days_of_years-eq (suc n) le =
    let before = days_of_years-eq n (omega (arith, le)) in ground (arith, before, le)

pub isleap-leap_year : (y : ℕ) → y < 2 ^ 31 → isleap y ≡ leap_year y
unfolding isleap
isleap-leap_year y small = ground arith

pub days_to_month-sums :
    (leap : Bool) (mon : ℕ)
    → mon < 12
    → get_elem? (if leap then days_to_month_leap else days_to_month) mon
      ≡ some (sum_of_first mon (month_lengths leap))
unfolding prefix_sums
days_to_month-sums true mon le =
    get_elem?-prefix_sums mon 0 (month_lengths true) (omega (arith, le)) ∙ ap some (omega arith)
days_to_month-sums false mon le =
    get_elem?-prefix_sums mon 0 (month_lengths false) (omega (arith, le)) ∙ ap some (omega arith)

-- The entry of a number, and 0 behind the end.
abbrev pub entry : ℕ → List ℕ → ℕ
entry n [] = 0
entry zero (x ∷ xs) = x
entry (suc n) (x ∷ xs) = entry n xs

-- A time from 1970 to the end of 2037.
pub record IsDate (t : Tm) : Type 0 where
  pub from_1970 : 70 ≤ t.tm_year
  pub to_2037 : t.tm_year ≤ 137
  pub month : t.tm_mon < 12
  pub first_day : 1 ≤ t.tm_mday
  pub last_day : t.tm_mday ≤ entry t.tm_mon (month_lengths (leap_year (tm_year_base + t.tm_year)))
  pub hour : t.tm_hour < 24
  pub minute : t.tm_min < 60
  pub second : t.tm_sec < 60

pub sum_of_first-suc :
    (n : ℕ) (xs : List ℕ) → sum_of_first (suc n) xs ≡ sum_of_first n xs + entry n xs
sum_of_first-suc zero [] = refl
sum_of_first-suc zero (x ∷ xs) = omega arith
sum_of_first-suc (suc n) [] = refl
sum_of_first-suc (suc n) (x ∷ xs) = omega (arith, sum_of_first-suc n xs)

pub sum_of_first-grows : (n m : ℕ) (xs : List ℕ) → n ≤ m → sum_of_first n xs ≤ sum_of_first m xs
sum_of_first-grows zero m xs le = omega arith
sum_of_first-grows (suc n) zero xs le = absurd (omega (arith, le))
sum_of_first-grows (suc n) (suc m) [] le = omega arith
sum_of_first-grows (suc n) (suc m) (x ∷ xs) le =
    omega (arith, sum_of_first-grows n m xs (omega (arith, le)))

-- The day of the year, from 0 on.
abbrev pub day_of_year : Tm → ℕ
day_of_year t =
    sum_of_first t.tm_mon (month_lengths (leap_year (tm_year_base + t.tm_year))) + (t.tm_mday - 1)

-- The seconds from the start of 1970 to a time.
abbrev pub seconds_since_epoch : Tm → ℕ
seconds_since_epoch t =
    let days = days_of_years (t.tm_year - 70) + day_of_year t in
    ((days * 24 + t.tm_hour) * 60 + t.tm_min) * 60 + t.tm_sec

year_length : (leap : Bool) → sum_of_first 12 (month_lengths leap) ≡ (if leap then 366 else 365)
year_length true = refl
year_length false = refl

pub day_of_year-lt :
    (t : Tm)
    → IsDate t
    → day_of_year t < (if leap_year (tm_year_base + t.tm_year) then 366 else 365)
day_of_year-lt t d =
    let xs = month_lengths (leap_year (tm_year_base + t.tm_year)) in
    omega (
      arith,
      d.first_day,
      d.last_day,
      sum_of_first-suc t.tm_mon xs,
      sum_of_first-grows (suc t.tm_mon) 12 xs (omega (arith, d.month)),
      year_length (leap_year (tm_year_base + t.tm_year)),
    )

leap_years-quarter :
    (year n : ℕ)
    → year ≡ n + 70
    → n ≤ 67
    → leap_years_from_epoch ((year + tm_year_base) % word) ≡ (n + 1) / 4
leap_years-quarter year n e le = ground (arith, e, le)

-- The days since the start of 1970, as `mktime` counts them.
days-eq :
    (t : Tm) (n q before d : ℕ)
    → t.tm_year ≡ n + 70
    → n ≤ 67
    → q ≤ 17
    → d ≡ before + (t.tm_mday - 1)
    → 1 ≤ t.tm_mday
    → d < 366
    → (365 * ((t.tm_year + word - 70) % word) + q + before + t.tm_mday + word - 1) % word
      ≡ 365 * n + q + d
days-eq t n q before d e le small day first last =
    let n_eq : (t.tm_year + word - 70) % word ≡ n = omega (arith, e, le) in
    rw n_eq (omega (arith, le, small, day, first, last))

seconds-eq :
    (days h m s : ℕ)
    → days ≤ 24837
    → h < 24
    → m < 60
    → s < 60
    → ((days * 86400 + h * 3600 + m * 60 + s) % word ≡ ((days * 24 + h) * 60 + m) * 60 + s)
      × (((days * 24 + h) * 60 + m) * 60 + s < 2 ^ 31)
seconds-eq days h m s hd hh hm hs = (omega (arith, hd, hh, hm, hs), omega (arith, hd, hh, hm, hs))

-- For a time from 1970 to the end of 2037, `mktime` returns the seconds since the start of 1970, counting
-- the days of the years and of the months that have passed, and they are below 2 ^ 31.
pub mktime-seconds :
    (t : Tm)
    → IsDate t
    → (mktime t ≡ some (seconds_since_epoch t)) × (seconds_since_epoch t < 2 ^ 31)
unfolding mktime
mktime-seconds t d =
    let year = tm_year_base + t.tm_year in
    let whole : (t.tm_year + 1900) % word ≡ year = omega (arith, d.to_2037) in
    let leap : isleap ((t.tm_year + 1900) % word) ≡ leap_year year =
      ap isleap whole ∙ isleap-leap_year year (omega (arith, d.to_2037)) in
    let years = days_of_years-eq (t.tm_year - 70) (omega (arith, d.to_2037)) in
    let n = t.tm_year - 70 in
    let within : day_of_year t < 366 = ground (arith, day_of_year-lt t d) in
    let counted : (365 * ((t.tm_year + word - 70) % word)
            + leap_years_from_epoch ((t.tm_year + tm_year_base) % word)
            + sum_of_first t.tm_mon (month_lengths (leap_year year))
            + t.tm_mday
            + word
            - 1)
          % word
        ≡ days_of_years n + day_of_year t =
      rw
        (
          leap_years-quarter t.tm_year n (omega (arith, d.from_1970)) (omega (arith, d.to_2037)),
          years,
        )
        (days-eq t n ((n + 1) / 4) _ (day_of_year t) (omega (arith, d.from_1970))
          (omega (arith, d.to_2037)) (omega (arith, d.to_2037)) refl d.first_day within) in
    let result =
      seconds-eq (days_of_years n + day_of_year t) t.tm_hour t.tm_min t.tm_sec
        (omega (arith, years, within, d.to_2037)) d.hour d.minute d.second in
    (
      rw (leap, days_to_month-sums (leap_year year) t.tm_mon d.month, mktime)
          (ap some (
            ap (λ n. (n * 86400 + t.tm_hour * 3600 + t.tm_min * 60 + t.tm_sec) % word) counted
            ∙ result.0)),
      result.1,
    )
