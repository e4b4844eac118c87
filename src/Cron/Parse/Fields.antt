-- ===== src/Cron/Parse/Fields.antt =====
-- What a parsed cron field holds: `parseField` of packages/core/src/cron.ts.
use agent_phonon.Base.{
  ℕ, suc, ◌-◌, ◌≤◌, ◌<◌, ◌≡◌, ◌≢◌, refl, ap, ◌∙◌, subst, Bool, true, false, ◌||◌, Option, none,
  some, List, [], ◌∷◌, arith, ok, >>=-eq-ok,
}
use agent_phonon.Js.Text.Order.{text_eq-eq}
use agent_phonon.Js.Text.{ℤ, pos, negsuc, text_eq, split, parse_int, is_finite}
use agent_phonon.Cron.Parse.{
  CronField, has, add_range, parse_step, checked_step, parse_range, add_checked, first_piece,
  parse_part, parse_parts, parse_field,
}
use agent_phonon.Cron.Parse.Values.{in_steps, has-add_range}

-- What one part of a field adds to the values.
pub record AddsRange (star : Bool) (min max : ℕ) (before after : List ℕ) : Type 0 where
  pub lo : ℕ
  pub hi : ℕ
  pub step : ℕ
  pub step_pos : 0 < step
  pub lo_min : min ≤ lo
  pub lo_hi : lo ≤ hi
  pub hi_max : hi ≤ max
  pub values : (v : ℕ) → has after v ≡ (has before v || in_steps lo hi step v)
  pub all : star ≡ true → (lo ≡ min) × (hi ≡ max) × (step ≡ 1)

-- The two numbers that the loop runs between, if the checks pass.
add_checked_ok :
    (step : ℕ) (a b : Option ℤ) (min max : ℕ) (before after : List ℕ)
    → add_checked step a b min max before ≡ ok after
    → (lo : ℕ) × (hi : ℕ) × (a ≡ some (pos lo))
      × (b ≡ some (pos hi))
      × (min ≤ lo)
      × (lo ≤ hi)
      × (hi ≤ max)
      × (after ≡ add_range (suc hi - lo) lo hi step before)
unfolding add_checked
add_checked_ok step none b min max before after h = cc
add_checked_ok step (some x) none min max before after h = ground arith
add_checked_ok step (some (negsuc x)) (some y) min max before after h = ground arith
add_checked_ok step (some (pos x)) (some (negsuc y)) min max before after h = ground arith
add_checked_ok step (some (pos x)) (some (pos y)) min max before after h =
    (x, y, refl, refl, ground arith, ground arith, ground arith, ground arith)

checked_step_pos : (n : Option ℤ) {step : ℕ} → checked_step n ≡ ok step → 0 < step
unfolding is_finite
checked_step_pos none h = cc
checked_step_pos (some (negsuc n)) h = cc
checked_step_pos (some (pos n)) h = ground arith

parse_step_pos : (slash : List (List ℕ)) {step : ℕ} → parse_step slash ≡ ok step → 0 < step
unfolding parse_step
parse_step_pos [] h = ground arith
parse_step_pos (range ∷ []) h = ground arith
parse_step_pos (range ∷ [] ∷ rest) h = ground arith
parse_step_pos (range ∷ (c ∷ s) ∷ rest) h = checked_step_pos (parse_int (c ∷ s)) h

star_part :
    (part : List ℕ) (min max : ℕ)
    → text_eq part (b'*' ∷ []) ≡ true
    → (parse_step (split part b'/') ≡ ok 1)
      × (parse_range (first_piece (split part b'/')) min max ≡ (some (pos min), some (pos max)))
unfolding parse_step parse_range split text_eq
star_part part min max h = rw (text_eq-eq part (b'*' ∷ []) h) (refl, refl)

-- `some (pos a) ≡ some (pos b)` gives the numbers.
pos_injective : {a b : ℕ} → some (pos a) ≡ some (pos b) → a ≡ b
pos_injective h = ground arith

pub parse_part-AddsRange :
    (part : List ℕ) (min max : ℕ) (before : List ℕ) {after : List ℕ}
    → parse_part part min max before ≡ ok after
    → AddsRange (text_eq part (b'*' ∷ [])) min max before after
unfolding parse_part
parse_part-AddsRange part min max before {after} h =
    let (step, es, h1) = >>=-eq-ok (parse_step (split part b'/')) _ h in
    let ends = parse_range (first_piece (split part b'/')) min max in
    let (lo, hi, ea, ez, le_lo, le, le_hi, e) =
      add_checked_ok step ends.0 ends.1 min max before after h1 in
    let step_pos = parse_step_pos (split part b'/') es in
    record {
      lo = lo;
      hi = hi;
      step = step;
      step_pos = step_pos;
      lo_min = le_lo;
      lo_hi = le;
      hi_max = le_hi;
      values = λ v.
          ap (λ xs. has xs v) e
          ∙ has-add_range (suc hi - lo) lo hi step before v step_pos (omega arith);
      all = λ star. ground (arith, star_part part min max star);
    }

-- What holds of the values of a field while they are collected, and of the field in the end.
pub record IsWithin (min max : ℕ) (f : CronField) : Type 0 where
  pub in_range : (v : ℕ) → has f.values v ≡ true → (min ≤ v) × (v ≤ max)
  pub all_values : f.is_wildcard ≡ true → (v : ℕ) → min ≤ v → v ≤ max → has f.values v ≡ true

star-all_values :
    (star : Bool) (min max : ℕ) (f : CronField) {after : List ℕ}
    → AddsRange star min max f.values after
    → IsWithin min max f
    → (star || f.is_wildcard) ≡ true
    → (v : ℕ) → min ≤ v
    → v ≤ max
    → has after v ≡ true
star-all_values true min max f r w h v le_min le_max = ground (arith, r.values v, r.all refl)
star-all_values false min max f r w h v le_min le_max =
    ground (arith, r.values v, w.all_values h v le_min le_max)

parse_part-IsWithin :
    (star : Bool) (min max : ℕ) (f : CronField) {after : List ℕ}
    → AddsRange star min max f.values after
    → IsWithin min max f
    → IsWithin min max (record { values = after; is_wildcard = star || f.is_wildcard })
parse_part-IsWithin star min max f r w = record {
  in_range = λ v h. ground (arith, r.values v, w.in_range v);
  all_values = star-all_values star min max f r w;
}

parse_parts-IsWithin :
    (parts : List (List ℕ)) (min max : ℕ) (f : CronField) {g : CronField}
    → parse_parts parts min max f ≡ ok g
    → IsWithin min max f
    → IsWithin min max g
unfolding parse_parts
parse_parts-IsWithin [] min max f {g} h w =
    let e : f ≡ g = ground arith in subst (IsWithin min max) e w
parse_parts-IsWithin (part ∷ parts) min max f h w =
    let (after, e, h1) = >>=-eq-ok (parse_part part min max f.values) _ h in
    parse_parts-IsWithin parts min max _ h1
      (parse_part-IsWithin _ min max f (parse_part-AddsRange part min max f.values e) w)

pub parse_field-IsWithin :
    (spec : List ℕ) (min max : ℕ) {f : CronField}
    → parse_field spec min max ≡ ok f
    → IsWithin min max f × (f.values ≢ [])
unfolding parse_field
parse_field-IsWithin spec min max {f} h =
    let (g, e, h1) = >>=-eq-ok (parse_parts (split spec b',') min max _) _ h in
    let same : g ≡ f = ground arith in
    let some_value : f.values ≢ [] = ground arith in
    (
      subst (IsWithin min max) same (parse_parts-IsWithin (split spec b',') min max _ e empty),
      some_value,
    )
  where
    empty : IsWithin min max (record { values = []; is_wildcard = false })
    empty = record { in_range = λ v h. cc; all_values = λ h. cc }
