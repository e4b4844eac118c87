-- ===== src/Cron/Tests.antt =====
-- Runs of the cron clock in two small calendars, and the theorems at concrete inputs.
use Prim.Native.String.{String}
use agent_phonon.Base.{
  ℕ, zero, suc, ◌+◌, ◌-◌, ◌*◌, ◌/◌, ◌%◌, ◌≤◌, ◌<◌, ◌≡◌, refl, some, true, false, arith, List, [],
  ◌∷◌, ok, err, if◌then◌else◌, ltb, ap, length,
}
use agent_phonon.Js.Text.{codes, trim, split_spaces}
use agent_phonon.Cron.Parse.{
  ParsedCron, invalid_step, invalid_field, out_of_range, wrong_field_count, parse_cron,
}
use agent_phonon.Cron.Parse.Whole.{IsWellFormed, parse_cron-IsWellFormed}
use agent_phonon.Cron.Match.{FormatParts, parts_in_tz, date_matches, time_matches, weekday_number}
use agent_phonon.Cron.Match.Dates.{classic_date, date_matches-classic}
use agent_phonon.Cron.Next.{first_cursor, mins_to_midnight, next_occurrence, next_cron_after}
use agent_phonon.Cron.Next.Bounds.{fires, next_cron_after_sound}
use agent_phonon.Cron.Next.First.{IsRegular, SameDate, next_cron_after_first}
use agent_phonon.Cron.Next.Horizon.{IsFirst, next_cron_after_complete, next_cron_after_short_day}

abbrev minutes : ℕ → ℕ
minutes n = n * 60000

-- A calendar of months of 28 days, whose day 0 is a Thursday.
abbrev weekday_name : ℕ → String
weekday_name zero = "Thu"
weekday_name (suc zero) = "Fri"
weekday_name (suc (suc zero)) = "Sat"
weekday_name (suc (suc (suc zero))) = "Sun"
weekday_name (suc (suc (suc (suc zero)))) = "Mon"
weekday_name (suc (suc (suc (suc (suc zero))))) = "Tue"
weekday_name _ = "Wed"

stamp : ℕ → ℕ → FormatParts
stamp day minute = record {
  year = 1970;
  month = day / 28 % 12 + 1;
  day = day % 28 + 1;
  hour = minute / 60;
  minute = minute % 60;
  weekday = weekday_name (day % 7);
}

even_days : ℕ → FormatParts
even_days t = stamp (t / 86400000) (t / 60000 % 1440)

-- The same, but day 1 jumps from 2:00 to 3:00 and so has 23 hours.
spring : ℕ → FormatParts
unfolding even_days stamp
spring t = even_days (if ltb t (minutes 1560) then t else t + minutes 60)

saturdays : List ℕ
saturdays = codes " 30  0 * * 6 "

saturdays_parsed : ParsedCron
saturdays_parsed = record {
  minute = record { values = 30 ∷ []; is_wildcard = false };
  hour = record { values = 0 ∷ []; is_wildcard = false };
  dom = record { values = days; is_wildcard = true };
  month = record {
    values = 1 ∷ 2 ∷ 3 ∷ 4 ∷ 5 ∷ 6 ∷ 7 ∷ 8 ∷ 9 ∷ 10 ∷ 11 ∷ 12 ∷ [];
    is_wildcard = true;
  };
  dow = record { values = 6 ∷ []; is_wildcard = false };
}
  where
    days : List ℕ
    days =
        1 ∷ 2 ∷ 3 ∷ 4 ∷ 5 ∷ 6 ∷ 7 ∷ 8 ∷ 9 ∷ 10 ∷ 11 ∷ 12 ∷ 13 ∷ 14 ∷ 15 ∷ 16 ∷ 17 ∷ 18 ∷ 19 ∷ 20
        ∷ 21 ∷ 22 ∷ 23 ∷ 24 ∷ 25 ∷ 26 ∷ 27 ∷ 28 ∷ 29 ∷ 30 ∷ 31 ∷ []

saturdays_parse : parse_cron saturdays ≡ ok saturdays_parsed
unfolding saturdays saturdays_parsed parse_cron
saturdays_parse = refl

step_parse :
    parse_cron (codes "*/20 9-17/4 1,15 * 1-5")
    ≡ ok (record {
      minute = record { values = 0 ∷ 20 ∷ 40 ∷ []; is_wildcard = false };
      hour = record { values = 9 ∷ 13 ∷ 17 ∷ []; is_wildcard = false };
      dom = record { values = 1 ∷ 15 ∷ []; is_wildcard = false };
      month = saturdays_parsed.month;
      dow = record { values = 1 ∷ 2 ∷ 3 ∷ 4 ∷ 5 ∷ []; is_wildcard = false };
    })
unfolding saturdays_parsed parse_cron
step_parse = refl

out_of_range_parse : parse_cron (codes "60 0 * * *") ≡ err out_of_range
unfolding parse_cron
out_of_range_parse = refl

step_zero_parse : parse_cron (codes "*/0 0 * * *") ≡ err invalid_step
unfolding parse_cron
step_zero_parse = refl

negative_parse : parse_cron (codes "-5 0 * * *") ≡ err invalid_field
unfolding parse_cron
negative_parse = refl

four_fields_parse : parse_cron (codes "0 0 * *") ≡ err (wrong_field_count 4)
unfolding parse_cron
four_fields_parse = refl

even_run : next_cron_after even_days saturdays 0 ≡ ok (some (minutes 2910))
unfolding next_cron_after parse_cron parts_in_tz next_occurrence date_matches time_matches even_days
    stamp saturdays
even_run = refl

spring_run : next_cron_after spring saturdays (minutes 1439) ≡ ok (some (minutes 12930))
unfolding next_cron_after parse_cron parts_in_tz next_occurrence date_matches time_matches spring
    saturdays
spring_run = refl

-- The wall clock of the even calendar runs without a jump.
even_days_left : (t : ℕ) → mins_to_midnight (parts_in_tz even_days t) ≡ 1440 - t / 60000 % 1440
unfolding parts_in_tz even_days stamp
even_days_left t = ground arith

even_days_date :
    (t u : ℕ)
    → t / 86400000 ≡ u / 86400000
    → SameDate (parts_in_tz even_days t) (parts_in_tz even_days u)
unfolding parts_in_tz even_days stamp
even_days_date t u e = (
  ap (λ d. d / 28 % 12 + 1) e,
  ap (λ d. d % 28 + 1) e,
  ap (λ d. weekday_number (weekday_name (d % 7))) e,
)

even_days-IsRegular : (from until : ℕ) → IsRegular (parts_in_tz even_days) from until
even_days-IsRegular from until = record {
  positive = λ t _ _. omega (arith, even_days_left t);
  minute = λ t _ _ more. (
    even_days_date (t + 60000) t (omega (arith, even_days_left t)),
    omega (arith, even_days_left t, even_days_left (t + 60000)),
  );
  midnight = λ t _ _ last. omega (arith, even_days_left t, even_days_left (t + 60000));
}

first_saturday_fires : fires (parts_in_tz even_days) saturdays_parsed (minutes 2910) ≡ true
unfolding date_matches time_matches parts_in_tz even_days stamp spring saturdays_parsed
first_saturday_fires = refl

second_saturday_fires : fires (parts_in_tz even_days) saturdays_parsed (minutes 12990) ≡ true
unfolding date_matches time_matches parts_in_tz even_days stamp spring saturdays_parsed
second_saturday_fires = refl

short_saturday_fires : fires (parts_in_tz spring) saturdays_parsed (minutes 2850) ≡ true
unfolding date_matches time_matches parts_in_tz even_days stamp spring saturdays_parsed
short_saturday_fires = refl

friday_misses :
    date_matches saturdays_parsed (parts_in_tz spring (first_cursor (minutes 1439))) ≡ false
unfolding date_matches time_matches parts_in_tz even_days stamp spring saturdays_parsed
friday_misses = refl

friday_left :
    minutes 2850
    < first_cursor (minutes 1439)
      + mins_to_midnight (parts_in_tz spring (first_cursor (minutes 1439))) * 60000
unfolding date_matches time_matches parts_in_tz even_days stamp spring saturdays_parsed
friday_left = omega arith

parse_cron-IsWellFormed_example :
    (length (split_spaces false (trim saturdays)) ≡ 5) × IsWellFormed saturdays_parsed
parse_cron-IsWellFormed_example = parse_cron-IsWellFormed saturdays saturdays_parse

date_matches-classic_example :
    date_matches saturdays_parsed (parts_in_tz even_days (minutes 2910))
    ≡ classic_date saturdays_parsed (parts_in_tz even_days (minutes 2910))
unfolding parts_in_tz even_days stamp
date_matches-classic_example =
    date_matches-classic saturdays_parsed (parts_in_tz even_days (minutes 2910))
      (parse_cron-IsWellFormed saturdays saturdays_parse).1
      (record { day_low = omega arith; day_high = omega arith; weekday_high = omega arith })

next_cron_after_sound_example :
    (parsed : ParsedCron) × (parse_cron saturdays ≡ ok parsed)
    × IsWellFormed parsed
    × (0 < minutes 2910)
    × (minutes 2910 % 60000 ≡ 0)
    × (fires (parts_in_tz even_days) parsed (minutes 2910) ≡ true)
next_cron_after_sound_example = next_cron_after_sound even_days saturdays 0 even_run

next_cron_after_first_example : minutes 2910 ≤ minutes 12990
next_cron_after_first_example =
    next_cron_after_first even_days saturdays saturdays_parsed 0 (minutes 12990) (minutes 2910)
      saturdays_parse (omega arith) (omega arith) (even_days-IsRegular _ _) second_saturday_fires
      even_run

next_cron_after_complete_example :
    (r : ℕ) × (next_cron_after even_days saturdays 0 ≡ ok (some r)) × (r ≤ minutes 2910)
next_cron_after_complete_example =
    next_cron_after_complete even_days saturdays saturdays_parsed 0 (minutes 2910) saturdays_parse
      (omega arith) (omega arith) (omega arith) (even_days-IsRegular _ _) first_saturday_fires

next_cron_after_short_day_example :
    ¬ IsFirst (parts_in_tz spring) saturdays_parsed (minutes 1439) (minutes 12930)
next_cron_after_short_day_example =
    next_cron_after_short_day spring saturdays saturdays_parsed (minutes 1439) (minutes 2850)
      (minutes 12930) saturdays_parse friday_misses (omega arith) (omega arith) short_saturday_fires
      friday_left spring_run
