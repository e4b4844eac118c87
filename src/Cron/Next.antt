-- ===== src/Cron/Next.antt =====
-- `nextCronAfter` of packages/core/src/cron.ts, over instants in milliseconds from the epoch on.
pub mod Bounds
pub mod First
pub mod Horizon
use agent_phonon.Base.{
  ℕ, zero, suc, ◌+◌, ◌-◌, ◌*◌, ◌/◌, max, Option, none, some, leb, if◌then◌else◌, Result, ◌>>=◌, ok,
  List,
}
use agent_phonon.Cron.Parse.{ParsedCron, CronError, parse_cron}
use agent_phonon.Cron.Match.{Parts, FormatParts, parts_in_tz, date_matches, time_matches}

abbrev pub max_days : ℕ
max_days = 1500

abbrev pub hard_iter_cap : ℕ
hard_iter_cap = max_days * 1440 + 10000

-- `24 * 60 - (p.hour * 60 + p.minute)`, which `Math.max(1, ...)` takes from below 1 to 1.
abbrev pub mins_to_midnight : Parts → ℕ
mins_to_midnight p = 24 * 60 - (p.hour * 60 + p.minute)

-- The loop: the fuel is what is left of `hardIterCap`, so it is the code's own bound.
unfoldable pub scan : (ℕ → Parts) → ParsedCron → ℕ → ℕ → ℕ → Option ℕ
scan parts parsed zero day_checks cursor = none
scan parts parsed (suc fuel) day_checks cursor =
    let p = parts cursor in
    let next_day =
      scan parts parsed fuel (suc day_checks) (cursor + max 1 (mins_to_midnight p) * 60000) in
    let next_minute = scan parts parsed fuel day_checks (cursor + 60000) in
    if leb max_days day_checks
    then none
    else if date_matches parsed p
    then (if time_matches parsed p then some cursor else next_minute)
    else next_day

-- The next whole minute.
abbrev pub first_cursor : ℕ → ℕ
first_cursor after = after / 60000 * 60000 + 60000

unfoldable pub next_occurrence : (ℕ → Parts) → ParsedCron → ℕ → Option ℕ
unfolding scan
next_occurrence parts parsed after = scan parts parsed hard_iter_cap 0 (first_cursor after)

unfoldable pub next_cron_after : (ℕ → FormatParts) → List ℕ → ℕ → Result CronError (Option ℕ)
next_cron_after format expr after = do
  parsed ← parse_cron expr
  ok (next_occurrence (parts_in_tz format) parsed after)
