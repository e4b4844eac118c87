-- ===== src/Cron/Next/Bounds.antt =====
-- Soundness of `nextCronAfter`, packages/core/src/cron.ts: what it returns is a later whole minute
-- that matches.
use agent_phonon.Base.{
  ℕ, zero, suc, ◌+◌, ◌*◌, ◌%◌, ◌≤◌, ◌<◌, max, ◌≡◌, some, Bool, true, ◌&&◌, arith, List, ok,
  >>=-eq-ok,
}
use agent_phonon.Cron.Parse.{ParsedCron, parse_cron}
use agent_phonon.Cron.Parse.Whole.{IsWellFormed, parse_cron-IsWellFormed}
use agent_phonon.Cron.Match.{FormatParts, Parts, parts_in_tz, date_matches, time_matches}
use agent_phonon.Cron.Next.{
  scan, mins_to_midnight, first_cursor, hard_iter_cap, next_occurrence, next_cron_after,
}

-- The expression fires in the minute that begins at this instant.
abbrev pub fires : (ℕ → Parts) → ParsedCron → ℕ → Bool
fires parts parsed t = date_matches parsed (parts t) && time_matches parsed (parts t)

module _ (parts : ℕ → Parts) (parsed : ParsedCron) where
  pub scan-fires :
      (fuel d c r : ℕ)
      → scan parts parsed fuel d c ≡ some r
      → (c ≤ r) × (r % 60000 ≡ c % 60000) × (fires parts parsed r ≡ true)
  unfolding scan
  scan-fires zero d c r h = cc
  scan-fires (suc fuel) d c r h = ground (
    arith,
    scan-fires fuel d (c + 60000) r,
    scan-fires fuel (suc d) (c + max 1 (mins_to_midnight (parts c)) * 60000) r,
  )

  pub next_occurrence-fires :
      (after r : ℕ)
      → next_occurrence parts parsed after ≡ some r
      → (after < r) × (r % 60000 ≡ 0) × (fires parts parsed r ≡ true)
  unfolding next_occurrence
  next_occurrence-fires after r h =
      let (le, whole, fired) = scan-fires hard_iter_cap 0 (first_cursor after) r h in
      (omega arith, omega arith, fired)

-- Whatever instant `next_cron_after` returns lies strictly after the given one, on a whole minute,
-- and the date and the time of its wall clock match the expression, which is well formed.
pub next_cron_after_sound :
    (format : ℕ → FormatParts) (expr : List ℕ) (after : ℕ) {r : ℕ}
    → next_cron_after format expr after ≡ ok (some r)
    → (parsed : ParsedCron) × (parse_cron expr ≡ ok parsed)
      × IsWellFormed parsed
      × (after < r)
      × (r % 60000 ≡ 0)
      × (fires (parts_in_tz format) parsed r ≡ true)
unfolding next_cron_after
next_cron_after_sound format expr after {r} h =
    let (parsed, e, h1) = >>=-eq-ok (parse_cron expr) _ h in
    let (later, whole, fired) =
      next_occurrence-fires (parts_in_tz format) parsed after r (ground arith) in
    (parsed, e, (parse_cron-IsWellFormed expr e).1, later, whole, fired)
