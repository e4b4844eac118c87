-- ===== src/Cron/Match/Dates.antt =====
-- The date rule of `dateMatches`, packages/core/src/cron.ts, against the rule that the file's header
-- states: union of the two day fields where both are restricted, intersection otherwise.
use agent_phonon.Base.{◌≡◌, ◌≤◌, Bool, true, not, ◌&&◌, ◌||◌, arith, if◌then◌else◌}
use agent_phonon.Cron.Parse.{ParsedCron, has}
use agent_phonon.Cron.Parse.Whole.{IsWellFormed}
use agent_phonon.Cron.Match.{Parts, date_matches}

-- The classic rule, which does not look at the wildcards once the day fields are combined.
abbrev pub classic_date : ParsedCron → Parts → Bool
classic_date parsed p =
    has parsed.month.values p.month
    && (if not parsed.dom.is_wildcard && not parsed.dow.is_wildcard
        then has parsed.dom.values p.day || has parsed.dow.values p.weekday
        else has parsed.dom.values p.day && has parsed.dow.values p.weekday)

-- The parts of a date of the calendar.
pub record IsDate (p : Parts) : Type 0 where
  pub day_low : 1 ≤ p.day
  pub day_high : p.day ≤ 31
  pub weekday_high : p.weekday ≤ 6

-- For an expression that the parser accepts and a date of the calendar, `date_matches` is the
-- classic cron rule: the month matches, and the day of the month or the weekday where both fields
-- are restricted, both of them otherwise.
pub date_matches-classic :
    (parsed : ParsedCron) (p : Parts)
    → IsWellFormed parsed
    → IsDate p
    → date_matches parsed p ≡ classic_date parsed p
unfolding date_matches
date_matches-classic parsed p w d = ground (
  arith,
  λ (h : parsed.dom.is_wildcard ≡ true). w.dom.0.all_values h p.day d.day_low d.day_high,
  λ (h : parsed.dow.is_wildcard ≡ true).
      w.dow.0.all_values h p.weekday (omega arith) d.weekday_high,
)
