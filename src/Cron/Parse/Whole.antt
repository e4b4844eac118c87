-- ===== src/Cron/Parse/Whole.antt =====
-- What `parseCron` of packages/core/src/cron.ts guarantees of all five fields.
use agent_phonon.Base.{ℕ, ◌≡◌, ◌≢◌, refl, length, subst, false, List, [], ◌∷◌, arith, ok, >>=-eq-ok}
use agent_phonon.Js.Text.{trim, split_spaces}
use agent_phonon.Cron.Parse.{ParsedCron, parse_field, parse_fields, parse_cron}
use agent_phonon.Cron.Parse.Fields.{IsWithin, parse_field-IsWithin}

-- Every field lies in its range, a wildcard field fills it, and no field is empty.
pub record IsWellFormed (p : ParsedCron) : Type 0 where
  pub minute : IsWithin 0 59 p.minute × (p.minute.values ≢ [])
  pub hour : IsWithin 0 23 p.hour × (p.hour.values ≢ [])
  pub dom : IsWithin 1 31 p.dom × (p.dom.values ≢ [])
  pub month : IsWithin 1 12 p.month × (p.month.values ≢ [])
  pub dow : IsWithin 0 6 p.dow × (p.dow.values ≢ [])

parse_fields-IsWellFormed :
    (parts : List (List ℕ)) {p : ParsedCron} → parse_fields parts ≡ ok p → IsWellFormed p
unfolding parse_fields
parse_fields-IsWellFormed (m ∷ h ∷ d ∷ mo ∷ w ∷ []) {p} e =
    let (minute, e0, k0) = >>=-eq-ok (parse_field m 0 59) _ e in
    let (hour, e1, k1) = >>=-eq-ok (parse_field h 0 23) _ k0 in
    let (dom, e2, k2) = >>=-eq-ok (parse_field d 1 31) _ k1 in
    let (month, e3, k3) = >>=-eq-ok (parse_field mo 1 12) _ k2 in
    let (dow, e4, k4) = >>=-eq-ok (parse_field w 0 6) _ k3 in
    subst IsWellFormed (ground arith) (record {
      minute = parse_field-IsWithin m 0 59 e0;
      hour = parse_field-IsWithin h 0 23 e1;
      dom = parse_field-IsWithin d 1 31 e2;
      month = parse_field-IsWithin mo 1 12 e3;
      dow = parse_field-IsWithin w 0 6 e4;
    })
parse_fields-IsWellFormed _ e = cc

parse_fields-length :
    (parts : List (List ℕ)) {p : ParsedCron} → parse_fields parts ≡ ok p → length parts ≡ 5
unfolding parse_fields
parse_fields-length (m ∷ h ∷ d ∷ mo ∷ w ∷ []) e = refl
parse_fields-length _ e = cc

-- An expression that `parse_cron` accepts has exactly five parts between its white space, and each field of the
-- result has at least one value, all of its values in the field's range; and a field with a `*` part holds every
-- value of its range.
pub parse_cron-IsWellFormed :
    (expr : List ℕ) {p : ParsedCron}
    → parse_cron expr ≡ ok p
    → (length (split_spaces false (trim expr)) ≡ 5) × IsWellFormed p
unfolding parse_cron
parse_cron-IsWellFormed expr e = (
  parse_fields-length (split_spaces false (trim expr)) e,
  parse_fields-IsWellFormed (split_spaces false (trim expr)) e,
)
