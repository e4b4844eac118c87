-- ===== src/Cron/Match.antt =====
-- Matching a wall-clock time: `partsInTz`, `dateMatches` and `timeMatches` of
-- packages/core/src/cron.ts. `Intl.DateTimeFormat` is a parameter.
pub mod Dates
use Prim.Native.String.{String}
use text.Mathlib.Text.{◌==◌ as str_eq}
use agent_phonon.Base.{ℕ, Bool, true, not, ◌&&◌, ◌||◌, ◌==◌, if◌then◌else◌}
use agent_phonon.Cron.Parse.{ParsedCron, has}

-- What `formatToParts` gives for the fields that are used; a field of digits is the number they spell.
pub record FormatParts : Type 0 where
  pub year : ℕ
  pub month : ℕ
  pub day : ℕ
  pub hour : ℕ
  pub minute : ℕ
  pub weekday : String

pub record Parts : Type 0 where
  pub year : ℕ
  pub month : ℕ
  pub day : ℕ
  pub hour : ℕ
  pub minute : ℕ
  pub weekday : ℕ

-- `weekdayMap[...] ?? 0`.
unfoldable pub weekday_number : String → ℕ
weekday_number s =
    if str_eq s "Sun"
    then 0
    else if str_eq s "Mon"
    then 1
    else if str_eq s "Tue"
    then 2
    else if str_eq s "Wed"
    then 3
    else if str_eq s "Thu"
    then 4
    else if str_eq s "Fri"
    then 5
    else if str_eq s "Sat"
    then 6
    else 0

-- The parts at an instant in milliseconds; midnight may be spelled as hour 24.
unfoldable pub parts_in_tz : (ℕ → FormatParts) → ℕ → Parts
unfolding weekday_number
parts_in_tz format t =
    let p = format t in
    record {
      year = p.year;
      month = p.month;
      day = p.day;
      hour = if p.hour == 24 then 0 else p.hour;
      minute = p.minute;
      weekday = weekday_number p.weekday;
    }

unfoldable pub date_matches : ParsedCron → Parts → Bool
date_matches parsed p =
    let dom_ok = has parsed.dom.values p.day in
    let dow_ok = has parsed.dow.values p.weekday in
    if not (has parsed.month.values p.month)
    then Bool.false
    else if parsed.dom.is_wildcard && parsed.dow.is_wildcard
    then true
    else if not parsed.dom.is_wildcard && not parsed.dow.is_wildcard
    then dom_ok || dow_ok
    else if not parsed.dom.is_wildcard
    then dom_ok
    else dow_ok

unfoldable pub time_matches : ParsedCron → Parts → Bool
time_matches parsed p = has parsed.hour.values p.hour && has parsed.minute.values p.minute
