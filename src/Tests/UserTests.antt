-- ===== src/Tests/UserTests.antt =====
-- Dates, and functions to call at the end, at concrete values.
use l4ertl.Base.{ℕ, Ptr, List, [], ◌∷◌, some, ◌≡◌, ◌<◌, ◌^◌, refl, arith}
use l4ertl.Calendar.{Tm, mktime, localtime_r}
use l4ertl.Calendar.Days.{IsDate, mktime-seconds, seconds_since_epoch, day_of_year}
use l4ertl.Calendar.Local.{localtime_r-mktime, localtime_r-last_day, at_day}
use l4ertl.User.Exit.{exit}
use l4ertl.User.Exit.Order.{register, no_functions, last_first, leaving_table, exit-last_first}

-- The 15th of June 2009, a quarter past noon.
abbrev june : Tm
june = record {
  tm_sec = 0;
  tm_min = 15;
  tm_hour = 12;
  tm_mday = 15;
  tm_mon = 5;
  tm_year = 109;
  tm_wday = 0;
  tm_yday = 0;
  tm_isdst = 0;
}

-- The 31st of December 2008.
abbrev new_years_eve : Tm
new_years_eve = record june { tm_mday = 31; tm_mon = 11; tm_year = 108 }

june-IsDate : IsDate june
june-IsDate = record {
  from_1970 = omega arith;
  to_2037 = omega arith;
  month = omega arith;
  first_day = omega arith;
  last_day = omega arith;
  hour = omega arith;
  minute = omega arith;
  second = omega arith;
}

new_years_eve-IsDate : IsDate new_years_eve
new_years_eve-IsDate = record {
  from_1970 = omega arith;
  to_2037 = omega arith;
  month = omega arith;
  first_day = omega arith;
  last_day = omega arith;
  hour = omega arith;
  minute = omega arith;
  second = omega arith;
}

mktime-seconds_example :
    (mktime june ≡ some (seconds_since_epoch june)) × (seconds_since_epoch june < 2 ^ 31)
mktime-seconds_example = mktime-seconds june june-IsDate

localtime_r-mktime_example :
    (timep : ℕ) × (mktime june ≡ some timep)
    × (localtime_r timep ≡ some (at_day june (day_of_year june) 5 15))
localtime_r-mktime_example = localtime_r-mktime june june-IsDate (omega arith)

localtime_r-last_day_example :
    (timep : ℕ) × (mktime new_years_eve ≡ some timep)
    × (localtime_r timep ≡ some (at_day new_years_eve 0 0 1))
localtime_r-last_day_example = localtime_r-last_day new_years_eve new_years_eve-IsDate refl

-- A function that notes that it has been called.
abbrev noting : Ptr → List Ptr → List Ptr
noting f called = f ∷ called

exit-last_first_example :
    exit (leaving_table noting) 3 (register (10 ∷ 20 ∷ []) no_functions, [])
    ≡ (3, (register (10 ∷ 20 ∷ []) no_functions, last_first noting (10 ∷ 20 ∷ []) []))
exit-last_first_example = exit-last_first noting (10 ∷ 20 ∷ []) 3 [] (omega arith)
