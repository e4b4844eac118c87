-- ===== src/Cron/Parse.antt =====
-- The parser of cron expressions: `parseField` and `parseCron` of packages/core/src/cron.ts.
mod Values
pub mod Fields
pub mod Whole
use agent_phonon.Base.{
  ℕ, zero, suc, ◌+◌, ◌-◌, Bool, false, ◌&&◌, ◌||◌, List, [], ◌∷◌, ◌++◌, Option, none, some, ltb,
  leb, ◌==◌, if◌then◌else◌, length, any, Result, ok, err, ◌>>=◌, ◌>>◌, guard,
}
use agent_phonon.Js.Text.{
  text_eq, includes, split, trim, split_spaces, ℤ, pos, negsuc, parse_int, is_finite,
}

-- `values` is the set in its order of insertion.
pub record CronField : Type 0 where
  pub values : List ℕ
  pub is_wildcard : Bool

pub record ParsedCron : Type 0 where
  pub minute : CronField
  pub hour : CronField
  pub dom : CronField
  pub month : CronField
  pub dow : CronField

-- The errors thrown, by their messages.
pub data CronError : Type 0 where
  invalid_step invalid_field out_of_range empty_field : CronError
  wrong_field_count : ℕ → CronError

-- `Set.has` and `Set.add`.
abbrev pub has : List ℕ → ℕ → Bool
has xs v = any (λ x. x == v) xs

abbrev pub add : ℕ → List ℕ → List ℕ
add v xs = if has xs v then xs else xs ++ v ∷ []

-- `for (let v = lo; v <= hi; v += step) values.add(v)`, with fuel.
unfoldable pub add_range : ℕ → ℕ → ℕ → ℕ → List ℕ → List ℕ
add_range zero v hi step values = values
add_range (suc fuel) v hi step values =
    let rest = add_range fuel (v + step) hi step (add v values) in if leb v hi then rest else values

-- `slash[1] ? parseInt(slash[1], 10) : 1` and its check.
abbrev checked_step : Option ℤ → Result CronError ℕ
checked_step none = err invalid_step
checked_step (some (negsuc n)) = err invalid_step
checked_step (some (pos n)) = if is_finite (some (pos n)) && ltb 0 n then ok n else err invalid_step

unfoldable pub parse_step : List (List ℕ) → Result CronError ℕ
unfolding parse_int is_finite
parse_step [] = ok 1
parse_step (range ∷ []) = ok 1
parse_step (range ∷ [] ∷ rest) = ok 1
parse_step (range ∷ (c ∷ s) ∷ rest) = checked_step (parse_int (c ∷ s))

-- `lo` and `hi`, before they are checked.
abbrev range_ends : List (List ℕ) → Option ℤ × Option ℤ
range_ends [] = (none, none)
range_ends (a ∷ []) = (parse_int a, none)
range_ends (a ∷ b ∷ rest) = (parse_int a, parse_int b)

unfoldable pub parse_range : List ℕ → ℕ → ℕ → Option ℤ × Option ℤ
unfolding parse_int includes split text_eq
parse_range range min max =
    if text_eq range (b'*' ∷ [])
    then (some (pos min), some (pos max))
    else if includes range b'-'
    then range_ends (split range b'-')
    else (parse_int range, parse_int range)

-- `min` is not negative, so a negative `lo` or `hi` is out of range.
abbrev checked_bounds : ℕ → ℕ → Option ℤ → Option ℤ → Result CronError (ℕ × ℕ)
checked_bounds min max (some (pos lo)) (some (pos hi)) =
    if ltb lo min || ltb max hi || ltb hi lo then err out_of_range else ok (lo, hi)
checked_bounds min max _ _ = err out_of_range

abbrev pub first_piece : List (List ℕ) → List ℕ
first_piece [] = []
first_piece (piece ∷ pieces) = piece

-- The checks of `lo` and `hi`, and the loop that adds the values.
unfoldable pub add_checked : ℕ → Option ℤ → Option ℤ → ℕ → ℕ → List ℕ → Result CronError (List ℕ)
unfolding is_finite add_range
add_checked step lo hi min max values = do
  guard (is_finite lo && is_finite hi) invalid_field
  bounds ← checked_bounds min max lo hi
  ok (add_range (suc bounds.1 - bounds.0) bounds.0 bounds.1 step values)

-- One part of the comma list.
unfoldable pub parse_part : List ℕ → ℕ → ℕ → List ℕ → Result CronError (List ℕ)
unfolding parse_step parse_range split add_checked
parse_part part min max values = do
  let slash = split part b'/'
  step ← parse_step slash
  let ends = parse_range (first_piece slash) min max
  add_checked step ends.0 ends.1 min max values

-- The loop over the parts.
unfoldable pub parse_parts : List (List ℕ) → ℕ → ℕ → CronField → Result CronError CronField
unfolding parse_part text_eq
parse_parts [] min max field = ok field
parse_parts (part ∷ parts) min max field = do
  values ← parse_part part min max field.values
  parse_parts parts min max
      (record { values = values; is_wildcard = text_eq part (b'*' ∷ []) || field.is_wildcard })

abbrev pub nonempty : CronField → Result CronError CronField
nonempty field = if length field.values == 0 then err empty_field else ok field

unfoldable pub parse_field : List ℕ → ℕ → ℕ → Result CronError CronField
unfolding parse_parts split
parse_field spec min max =
    parse_parts (split spec b',') min max (record { values = []; is_wildcard = false }) >>= nonempty

unfoldable pub parse_fields : List (List ℕ) → Result CronError ParsedCron
unfolding parse_field
parse_fields (m ∷ h ∷ d ∷ mo ∷ w ∷ []) = do
  minute ← parse_field m 0 59
  hour ← parse_field h 0 23
  dom ← parse_field d 1 31
  month ← parse_field mo 1 12
  dow ← parse_field w 0 6
  ok (record { minute = minute; hour = hour; dom = dom; month = month; dow = dow })
parse_fields parts = err (wrong_field_count (length parts))

unfoldable pub parse_cron : List ℕ → Result CronError ParsedCron
unfolding parse_fields trim split_spaces
parse_cron expr = parse_fields (split_spaces false (trim expr))
