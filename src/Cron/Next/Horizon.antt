-- ===== src/Cron/Next/Horizon.antt =====
-- `nextCronAfter` of packages/core/src/cron.ts gives up on no expression that fires within 1499
-- days, and what it misses on a short day.
use native.Mathlib.Decide.{dec_lt}
use agent_phonon.Base.{
  ℕ, zero, suc, ◌+◌, ◌-◌, ◌*◌, ◌/◌, ◌%◌, ◌≤◌, ◌<◌, max, ◌≡◌, ◌≢◌, ap, ◌∙◌, some, true, false, arith,
  List, ◌⊎◌, inl, inr, ok,
}
use agent_phonon.Cron.Parse.{ParsedCron, parse_cron}
use agent_phonon.Cron.Match.{Parts, FormatParts, parts_in_tz, date_matches}
use agent_phonon.Cron.Next.{
  scan, max_days, mins_to_midnight, first_cursor, hard_iter_cap, next_occurrence, next_cron_after,
}
use agent_phonon.Cron.Next.Bounds.{fires, scan-fires}
use agent_phonon.Cron.Next.First.{
  IsRegular, later-IsRegular, day-not_fires, day_on, next_cron_after_parsed,
  next_occurrence_of_cron, next_cron_after_first,
}

module _ (parts : ℕ → Parts) (parsed : ParsedCron) where
  -- The three ways on, forwards.
  scan_next :
      (fuel d c : ℕ)
      → d < max_days
      → (scan parts parsed (suc fuel) d c ≡ some c)
        ⊎ ((fires parts parsed c ≡ false)
            × (scan parts parsed (suc fuel) d c ≡ scan parts parsed fuel d (c + 60000)))
        ⊎ ((date_matches parsed (parts c) ≡ false)
            × (scan parts parsed (suc fuel) d c
                ≡ scan parts parsed fuel (suc d) (c + max 1 (mins_to_midnight (parts c)) * 60000)))
  unfolding scan
  scan_next fuel d c h = ground arith

  -- A minute on, the day has one minute less, or is over.
  left-minute :
      (c until : ℕ)
      → IsRegular parts c until
      → c < until
      → mins_to_midnight (parts c) ≤ mins_to_midnight (parts (c + 60000)) + 1
  left-minute c until r lt = elim (dec_lt 1 (mins_to_midnight (parts c))) [
    | yes more ↦ omega (arith, (r.minute c (omega arith) lt more).1)
    | no last ↦ omega arith
  ]

  pub scan_finds :
      (fuel d c k until : ℕ)
      → d < max_days
      → k < fuel
      → k < mins_to_midnight (parts c) + (1499 - d) * 1440
      → until ≡ c + k * 60000
      → IsRegular parts c until
      → fires parts parsed until ≡ true
      → (r : ℕ) × (scan parts parsed fuel d c ≡ some r)
  scan_finds zero d c k until hd hf hk e reg f = absurd (omega arith)
  scan_finds (suc fuel) d c k until hd hf hk e reg f = elim (scan_next fuel d c hd) [
    | inl here ↦ (c, here)
    | inr (inl (dark, step)) ↦
        let some_left : c ≢ until = λ p. cc (ap (fires parts parsed) p) in
        let (r, found) =
          scan_finds fuel d (c + 60000) (k - 1) until hd (omega arith)
            (omega (arith, left-minute c until reg (omega arith))) (omega arith)
            (later-IsRegular parts c _ until (omega arith) reg) f in
        (r, step ∙ found)
    | inr (inr (miss, step)) ↦
        let some_left : 0 < mins_to_midnight (parts c) =
          reg.positive c (omega arith) (omega arith) in
        let past : mins_to_midnight (parts c) ≤ k = elim (dec_lt k (mins_to_midnight (parts c))) [
          | yes lt ↦ cc (day-not_fires parts parsed c k until e reg lt miss)
          | no ge ↦ omega arith
        ] in
        let jump : max 1 (mins_to_midnight (parts c)) ≡ mins_to_midnight (parts c) = omega arith in
        let midnight : mins_to_midnight (parts (c + max 1 (mins_to_midnight (parts c)) * 60000))
            ≡ 1440 =
          ap (λ t. mins_to_midnight (parts (c + t * 60000))) jump
          ∙ day_on parts c until reg (omega arith) in
        let (r, found) =
          scan_finds fuel (suc d) (c + max 1 (mins_to_midnight (parts c)) * 60000)
            (k - max 1 (mins_to_midnight (parts c))) until (omega arith) (omega arith) (omega arith)
            (omega arith) (later-IsRegular parts c _ until (omega arith) reg) f in
        (r, step ∙ found)
  ]

-- Where the expression parses and the zone's wall clock runs without a jump up to a later whole
-- minute that fires, at most 1499 days after the next whole minute, `next_cron_after` returns an
-- instant, and none after that minute.
pub next_cron_after_complete :
    (format : ℕ → FormatParts) (expr : List ℕ) (parsed : ParsedCron) (after m : ℕ)
    → parse_cron expr ≡ ok parsed
    → after < m
    → m % 60000 ≡ 0
    → m ≤ first_cursor after + 1499 * 86400000
    → IsRegular (parts_in_tz format) (first_cursor after) m
    → fires (parts_in_tz format) parsed m ≡ true
    → (r : ℕ) × (next_cron_after format expr after ≡ ok (some r)) × (r ≤ m)
unfolding next_occurrence
next_cron_after_complete format expr parsed after m e later whole near reg f =
    let some_left = reg.positive (first_cursor after) (omega arith) (omega arith) in
    let (r, found) =
      scan_finds (parts_in_tz format) parsed hard_iter_cap 0 (first_cursor after)
        ((m - first_cursor after) / 60000) m (omega arith) (omega arith) (omega arith) (omega arith)
        reg f in
    let result = next_cron_after_parsed format expr parsed after e ∙ ap ok found in
    (r, result, next_cron_after_first format expr parsed after m r e later whole reg f result)

module _ (parts : ℕ → Parts) (parsed : ParsedCron) where
  -- A date that does not match sends the search to the instant that many wall-clock minutes ahead.
  scan_jump :
      (fuel d c r : ℕ)
      → date_matches parsed (parts c) ≡ false
      → scan parts parsed fuel d c ≡ some r
      → c + mins_to_midnight (parts c) * 60000 ≤ r
  unfolding scan
  scan_jump zero d c r miss h = cc
  scan_jump (suc fuel) d c r miss h = ground (
    arith,
    scan-fires parts parsed fuel (suc d) (c + max 1 (mins_to_midnight (parts c)) * 60000) r,
  )

-- No whole minute after the given instant that fires comes before `r`.
abbrev pub IsFirst : (ℕ → Parts) → ParsedCron → ℕ → ℕ → Type 0
IsFirst parts parsed after r =
    (m : ℕ) → after < m → m % 60000 ≡ 0 → fires parts parsed m ≡ true → r ≤ m

-- On a day that is shorter than its wall clock says, the step to midnight goes too far: where the
-- date of the next whole minute does not match, and a later whole minute fires that comes before the
-- point as many minutes ahead as the wall clock has left of the day, `next_cron_after` does not
-- return the first minute that fires.
pub next_cron_after_short_day :
    (format : ℕ → FormatParts) (expr : List ℕ) (parsed : ParsedCron) (after m r : ℕ)
    → parse_cron expr ≡ ok parsed
    → date_matches parsed (parts_in_tz format (first_cursor after)) ≡ false
    → after < m
    → m % 60000 ≡ 0
    → fires (parts_in_tz format) parsed m ≡ true
    → m < first_cursor after + mins_to_midnight (parts_in_tz format (first_cursor after)) * 60000
    → next_cron_after format expr after ≡ ok (some r)
    → ¬ IsFirst (parts_in_tz format) parsed after r
unfolding next_occurrence
next_cron_after_short_day format expr parsed after m r e miss later whole f near h first = omega (
  arith,
  first m later whole f,
  scan_jump (parts_in_tz format) parsed hard_iter_cap 0 (first_cursor after) r miss
      (next_occurrence_of_cron format expr parsed after r e h),
)
