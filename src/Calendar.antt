-- ===== src/Calendar.antt =====
-- `mktime` of server/core/libc/time.c and `localtime_r` of server/ulibc/time.c. An int or a time_t is a word, whose upper half are the negative
-- values; `none` is a read outside the tables of
-- the months.
pub mod Days
pub mod Local
use l4ertl.Base.{
  int_ltb, ℕ, zero, suc, List, [], ◌∷◌, Option, some, none, Bool, ◌+◌, ◌-◌, ◌*◌, ◌/◌, ◌%◌, ◌==◌,
  ◌&&◌, ◌||◌, not, ltb, if◌then◌else◌, word, ◌^◌,
}

-- struct tm
pub record Tm : Type 0 where
  pub tm_sec : ℕ
  pub tm_min : ℕ
  pub tm_hour : ℕ
  pub tm_mday : ℕ
  pub tm_mon : ℕ
  pub tm_year : ℕ
  pub tm_wday : ℕ
  pub tm_yday : ℕ
  pub tm_isdst : ℕ

abbrev pub epoch_year : ℕ
epoch_year = 1970

abbrev pub tm_year_base : ℕ
tm_year_base = 1900

abbrev pub secs_per_day : ℕ
secs_per_day = 86400

-- `a / n` and `a % n` of an int and a positive number, towards 0.
abbrev pub int_div : ℕ → ℕ → ℕ
int_div a n = if ltb a (2 ^ 31) then a / n else (word - (word - a) / n) % word

abbrev pub int_rem : ℕ → ℕ → ℕ
int_rem a n = if ltb a (2 ^ 31) then a % n else (word - (word - a) % n) % word

-- The magnitude of an int.
abbrev pub magnitude : ℕ → ℕ
magnitude y = if ltb y (2 ^ 31) then y else word - y

unfoldable pub isleap : ℕ → Bool
isleap y = magnitude y % 4 == 0 && (not (magnitude y % 100 == 0) || magnitude y % 400 == 0)

-- `(y - EPOCH_LEAP - 1) / 4`
abbrev pub leap_years_from_epoch : ℕ → ℕ
leap_years_from_epoch y = int_div ((y + word - 1969) % word) 4

abbrev pub days_to_month : List ℕ
days_to_month = 0 ∷ 31 ∷ 59 ∷ 90 ∷ 120 ∷ 151 ∷ 181 ∷ 212 ∷ 243 ∷ 273 ∷ 304 ∷ 334 ∷ 365 ∷ []

abbrev pub days_to_month_leap : List ℕ
days_to_month_leap = 0 ∷ 31 ∷ 60 ∷ 91 ∷ 121 ∷ 152 ∷ 182 ∷ 213 ∷ 244 ∷ 274 ∷ 305 ∷ 335 ∷ 366 ∷ []

abbrev pub get_elem? : List ℕ → ℕ → Option ℕ
get_elem? [] n = none
get_elem? (x ∷ xs) zero = some x
get_elem? (x ∷ xs) (suc n) = get_elem? xs n

-- `mktime` for the days that have passed in the year before the month.
abbrev pub seconds_at : Tm → ℕ → ℕ
seconds_at t days_before =
    let year = (t.tm_year + tm_year_base) % word in
    let days =
      (365 * ((t.tm_year + word - 70) % word)
        + leap_years_from_epoch year
        + days_before
        + t.tm_mday
        + word
        - 1)
      % word in
    (days * secs_per_day + t.tm_hour * 3600 + t.tm_min * 60 + t.tm_sec) % word

unfoldable pub mktime : Tm → Option ℕ
unfolding isleap
mktime t =
    let table =
      if isleap ((t.tm_year + tm_year_base) % word) then days_to_month_leap else days_to_month in
    elim (get_elem? table t.tm_mon) [ none ↦ none | some before ↦ some (seconds_at t before) ]

-- `for (m = TM_JANUARY; table [m] <= mday; m++)`: the entries that are passed.
unfoldable pub count_months : List ℕ → ℕ → Option ℕ
count_months [] mday = none
count_months (x ∷ xs) mday =
    let rest : Option ℕ = elim (count_months xs mday) [ none ↦ none | some m ↦ some (suc m) ] in
    if int_ltb mday x then some 0 else rest

-- `table [m - 1]`
abbrev pub entry_before : List ℕ → ℕ → Option ℕ
entry_before table zero = none
entry_before table (suc m) = get_elem? table m

-- The days of the year, from those since the start of 1970: the year since 1970 and the day in it.
abbrev pub days_less_leaps : ℕ → ℕ → ℕ
days_less_leaps days year =
    (days + word - leap_years_from_epoch ((year + epoch_year) % word)) % word

abbrev pub year_of : ℕ → ℕ
year_of days = int_div (days_less_leaps days (int_div days 365)) 365

abbrev pub yday_of : ℕ → ℕ
yday_of days = int_rem (days_less_leaps days (year_of days)) 365

-- The time with the day `yday` of the year in the month `m - 1`, which starts at the day `before`.
abbrev pub local_time : ℕ → ℕ → ℕ → ℕ → ℕ → ℕ → Tm
local_time timep days tm_year yday m before = record {
  tm_sec = int_rem timep 60;
  tm_min = int_div (int_rem timep 3600) 60;
  tm_hour = int_div (int_rem timep secs_per_day) 3600;
  tm_mday = (yday + word - before + 1) % word;
  tm_mon = (m + word - 1) % word;
  tm_year = tm_year;
  tm_wday = int_rem ((days + 4) % word) 7;
  tm_yday = yday;
  tm_isdst = 0;
}

-- What follows the year and the day in it.
unfoldable pub find_month : ℕ → ℕ → ℕ → ℕ → Option Tm
unfolding isleap count_months
find_month timep days tm_year yday =
    let table =
      if isleap ((tm_year + tm_year_base) % word) then days_to_month_leap else days_to_month in
    elim (count_months table yday) [
      | none ↦ none
      | some m ↦ elim (entry_before table m) [
        | none ↦ none
        | some before ↦ some (local_time timep days tm_year yday m before)
      ]
    ]

unfoldable pub localtime_r : ℕ → Option Tm
unfolding find_month
localtime_r timep =
    let days = int_div timep secs_per_day in
    find_month timep days ((year_of days + 70) % word) (yday_of days)
