-- ===== src/Cron/Next/First.antt =====
-- `nextCronAfter` of packages/core/src/cron.ts misses no minute where the zone keeps its offset.
use native.Mathlib.Decide.{dec_lt}
use agent_phonon.Base.{
  ℕ, zero, suc, ◌+◌, ◌-◌, ◌*◌, ◌/◌, ◌%◌, ◌≤◌, ◌<◌, max, ◌≡◌, ◌≢◌, refl, ap, some, true, false,
  arith, List, ◌⊎◌, inl, inr, ok,
}
use agent_phonon.Cron.Parse.{ParsedCron, parse_cron}
use agent_phonon.Cron.Match.{FormatParts, parts_in_tz, Parts, date_matches}
use agent_phonon.Cron.Next.{
  scan, mins_to_midnight, first_cursor, hard_iter_cap, next_occurrence, next_cron_after,
}
use agent_phonon.Cron.Next.Bounds.{fires}

abbrev pub SameDate : Parts → Parts → Type 0
SameDate p q = (p.month ≡ q.month) × (p.day ≡ q.day) × (p.weekday ≡ q.weekday)

-- Between the two instants the wall clock runs without a jump: within a day a minute takes nothing
-- but one minute off the time to midnight, and the last minute of a day is followed by midnight.
pub record IsRegular (parts : ℕ → Parts) (from until : ℕ) : Type 0 where
  pub positive : (t : ℕ) → from ≤ t → t ≤ until → 0 < mins_to_midnight (parts t)
  pub minute :
      (t : ℕ)
      → from ≤ t
      → t < until
      → 1 < mins_to_midnight (parts t)
      → SameDate (parts (t + 60000)) (parts t)
        × (mins_to_midnight (parts (t + 60000)) + 1 ≡ mins_to_midnight (parts t))
  pub midnight :
      (t : ℕ)
      → from ≤ t
      → t < until
      → mins_to_midnight (parts t) ≡ 1
      → mins_to_midnight (parts (t + 60000)) ≡ 1440

pub later-IsRegular :
    (parts : ℕ → Parts) (from from' until : ℕ)
    → from ≤ from'
    → IsRegular parts from until
    → IsRegular parts from' until
later-IsRegular parts from from' until le r = record {
  positive = λ t h. r.positive t (omega arith);
  minute = λ t h. r.minute t (omega arith);
  midnight = λ t h. r.midnight t (omega arith);
}

date_matches-SameDate :
    (parsed : ParsedCron) (p q : Parts)
    → SameDate p q
    → date_matches parsed p ≡ date_matches parsed q
unfolding date_matches
date_matches-SameDate parsed p q s = rw (s.0, s.1, s.2)

module _ (parts : ℕ → Parts) where
  -- `k` minutes on, but before midnight.
  pub minutes_on :
      (k c until : ℕ)
      → IsRegular parts c until
      → c + k * 60000 ≤ until
      → k < mins_to_midnight (parts c)
      → SameDate (parts (c + k * 60000)) (parts c)
        × (mins_to_midnight (parts (c + k * 60000)) + k ≡ mins_to_midnight (parts c))
  minutes_on zero c until r le lt =
      let e : c + 0 * 60000 ≡ c = omega arith in rw e ((refl, refl, refl), omega arith)
  minutes_on (suc k) c until r le lt =
      let (same, left) = minutes_on k c until r (omega arith) (omega arith) in
      let (same', left') = r.minute (c + k * 60000) (omega arith) (omega arith) (omega arith) in
      let e : c + k * 60000 + 60000 ≡ c + suc k * 60000 = omega arith in rw (← e) (ground arith)

  -- The minutes left of the day before midnight are skipped in one step.
  pub day_on :
      (c until : ℕ)
      → IsRegular parts c until
      → c + mins_to_midnight (parts c) * 60000 ≤ until
      → mins_to_midnight (parts (c + mins_to_midnight (parts c) * 60000)) ≡ 1440
  day_on c until r le =
      let some_left : 0 < mins_to_midnight (parts c) = r.positive c (omega arith) (omega arith) in
      let k = mins_to_midnight (parts c) - 1 in
      let (same, left) = minutes_on k c until r (omega arith) (omega arith) in
      let e : c + k * 60000 + 60000 ≡ c + mins_to_midnight (parts c) * 60000 = omega arith in
      rw (← e) (r.midnight (c + k * 60000) (omega arith) (omega arith) (omega arith))

-- The date of an instant that does not match excludes the rest of the day.
pub day-not_fires :
    (parts : ℕ → Parts) (parsed : ParsedCron) (c k until : ℕ)
    → until ≡ c + k * 60000
    → IsRegular parts c until
    → k < mins_to_midnight (parts c)
    → date_matches parsed (parts c) ≡ false
    → fires parts parsed until ≡ false
day-not_fires parts parsed c k until e r lt h =
    let on = minutes_on parts k c until r (omega arith) lt in
    let same : date_matches parsed (parts until) ≡ date_matches parsed (parts c) =
      rw e (date_matches-SameDate parsed (parts (c + k * 60000)) (parts c) on.0) in
    rw (same, h)

module _ (parts : ℕ → Parts) (parsed : ParsedCron) where
  -- The three ways on from an instant where the loop does not stop.
  scan_step :
      (fuel d c r : ℕ)
      → scan parts parsed (suc fuel) d c ≡ some r
      → (r ≡ c)
        ⊎ ((fires parts parsed c ≡ false) × (scan parts parsed fuel d (c + 60000) ≡ some r))
        ⊎ ((date_matches parsed (parts c) ≡ false)
            × (scan parts parsed fuel (suc d) (c + max 1 (mins_to_midnight (parts c)) * 60000)
                ≡ some r))
  unfolding scan
  scan_step fuel d c r h = ground arith

  -- No minute is skipped that fires.
  pub scan-le :
      (fuel d c k until r : ℕ)
      → until ≡ c + k * 60000
      → IsRegular parts c until
      → fires parts parsed until ≡ true
      → scan parts parsed fuel d c ≡ some r
      → r ≤ until
  unfolding scan
  scan-le zero d c k until r e reg f h = cc
  scan-le (suc fuel) d c k until r e reg f h = elim (scan_step fuel d c r h) [
    | inl here ↦ omega arith
    | inr (inl (dark, h')) ↦
        let some_left : c ≢ until = λ p. cc (ap (fires parts parsed) p) in
        scan-le fuel d (c + 60000) (k - 1) until r (omega arith)
          (later-IsRegular parts c _ until (omega arith) reg) f h'
    | inr (inr (miss, h')) ↦
        let past : mins_to_midnight (parts c) ≤ k = elim (dec_lt k (mins_to_midnight (parts c))) [
          | yes lt ↦ cc (day-not_fires parts parsed c k until e reg lt miss)
          | no ge ↦ omega arith
        ] in
        let some_left : 0 < mins_to_midnight (parts c) =
          reg.positive c (omega arith) (omega arith) in
        scan-le fuel (suc d) _ (k - max 1 (mins_to_midnight (parts c))) until r (omega arith)
          (later-IsRegular parts c _ until (omega arith) reg) f h'
  ]

-- What `next_cron_after` returns for an expression that parses.
pub next_cron_after_parsed :
    (format : ℕ → FormatParts) (expr : List ℕ) (parsed : ParsedCron) (after : ℕ)
    → parse_cron expr ≡ ok parsed
    → next_cron_after format expr after ≡ ok (next_occurrence (parts_in_tz format) parsed after)
unfolding next_cron_after
next_cron_after_parsed format expr parsed after e = rw e

pub next_occurrence_of_cron :
    (format : ℕ → FormatParts) (expr : List ℕ) (parsed : ParsedCron) (after r : ℕ)
    → parse_cron expr ≡ ok parsed
    → next_cron_after format expr after ≡ ok (some r)
    → next_occurrence (parts_in_tz format) parsed after ≡ some r
next_occurrence_of_cron format expr parsed after r e h =
    cc (next_cron_after_parsed format expr parsed after e)

-- Where the expression parses and the zone's wall clock runs without a jump up to a later whole
-- minute that fires, `next_cron_after` returns nothing after that minute.
pub next_cron_after_first :
    (format : ℕ → FormatParts) (expr : List ℕ) (parsed : ParsedCron) (after m r : ℕ)
    → parse_cron expr ≡ ok parsed
    → after < m
    → m % 60000 ≡ 0
    → IsRegular (parts_in_tz format) (first_cursor after) m
    → fires (parts_in_tz format) parsed m ≡ true
    → next_cron_after format expr after ≡ ok (some r)
    → r ≤ m
unfolding next_occurrence
next_cron_after_first format expr parsed after m r e later whole reg f h =
    scan-le (parts_in_tz format) parsed hard_iter_cap 0 (first_cursor after)
      ((m - first_cursor after) / 60000) m r (omega arith) reg f
      (next_occurrence_of_cron format expr parsed after r e h)
