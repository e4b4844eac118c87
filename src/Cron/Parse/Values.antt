-- ===== src/Cron/Parse/Values.antt =====
-- The set of values that the loop of `parseField` adds.
use native.Mathlib.Nat.{mod-eq_of_lt, mod-eq-sub-mod}
use agent_phonon.Base.{
  ℕ, zero, suc, ◌+◌, ◌-◌, ◌%◌, ◌≤◌, ◌<◌, ◌≡◌, refl, Bool, ◌&&◌, ◌||◌, List, [], ◌∷◌, ◌++◌, arith,
  leb, ◌==◌,
}
use agent_phonon.Cron.Parse.{has, add, add_range}

pub has-append : (xs ys : List ℕ) (v : ℕ) → has (xs ++ ys) v ≡ (has xs v || has ys v)
has-append [] ys v = refl
has-append (x ∷ xs) ys v = ground (arith, has-append xs ys v)

pub has-add : (w : ℕ) (xs : List ℕ) (v : ℕ) → has (add w xs) v ≡ (has xs v || w == v)
has-add w xs v = ground (arith, has-append xs (w ∷ []) v)

-- The values from `lo` to `hi` in steps of `step`.
abbrev pub in_steps : ℕ → ℕ → ℕ → ℕ → Bool
in_steps lo hi step v = leb lo v && leb v hi && ((v - lo) % step == 0)

mod_step : (lo step v : ℕ) → lo + step ≤ v → (v - lo) % step ≡ (v - (lo + step)) % step
mod_step lo step v h =
    let e : v - (lo + step) ≡ (v - lo) - step = omega arith in rw e (mod-eq-sub-mod (omega arith))

mod_first : (lo step v : ℕ) → v < lo + step → 0 < step → (v - lo) % step ≡ v - lo
mod_first lo step v h p = mod-eq_of_lt (omega arith)

in_steps-next :
    (lo hi step v : ℕ)
    → 0 < step
    → lo ≤ hi
    → in_steps lo hi step v ≡ (lo == v || in_steps (lo + step) hi step v)
in_steps-next lo hi step v h le = ground (arith, mod_step lo step v, mod_first lo step v)

pub has-add_range :
    (fuel lo hi step : ℕ) (values : List ℕ) (v : ℕ)
    → 0 < step
    → hi < lo + fuel
    → has (add_range fuel lo hi step values) v ≡ (has values v || in_steps lo hi step v)
unfolding add_range
has-add_range zero lo hi step values v h m = ground arith
has-add_range (suc fuel) lo hi step values v h m = ground (
  arith,
  has-add_range fuel (lo + step) hi step (add lo values) v h,
  in_steps-next lo hi step v h,
  has-add lo values v,
)
