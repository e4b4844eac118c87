-- ===== src/Scheduler/Asked.antt =====
-- What an update of a schedule asks for, in packages/core/src/scheduler-engine.ts, and that `update` makes it so.
use agent_phonon.Base.{
  false, Bool, ℕ, ◌≡◌, if◌then◌else◌, refl, true, List, [], ◌∷◌, Option, none, some, arith, Result,
  ok, err,
}
use agent_phonon.Scheduler.State.{
  SchedulePolicy, Options, cron_trigger, webhook_trigger, manual_trigger, ScheduleTrigger, Schedule,
}
use agent_phonon.Cron.Parse.{CronError}
use agent_phonon.Cron.Next.{next_cron_after}
use agent_phonon.Scheduler.Triggers.{
  compute_next_run, prepare_trigger, checked_trigger, due, own_token, token_before, with_token,
}
use agent_phonon.Scheduler.Schedules.{
  given, given_policy, ScheduleUpdate, updated_schedule, prepared,
}

-- A field after an update: the value that was given, or as it was.
abbrev pub Sets {ℓ} : {A : Type ℓ} → Option A → A → A → Type ℓ
Sets none old new = new ≡ old
Sets (some value) old new = new ≡ value

abbrev pub SetsPolicy :
    Option SchedulePolicy → Option SchedulePolicy → Option SchedulePolicy → Type 0
SetsPolicy none old new = new ≡ old
SetsPolicy (some policy) old new = new ≡ some policy

-- The token of a webhook: its own unless it is empty, or else that of the webhook before, or else the new one.
abbrev pub Inherits : ScheduleTrigger → List ℕ → List ℕ → Type 0
Inherits (webhook_trigger (some (c ∷ own))) fresh token = token ≡ c ∷ own
Inherits (webhook_trigger (some [])) fresh token = token ≡ fresh
Inherits (webhook_trigger none) fresh token = token ≡ fresh
Inherits (cron_trigger expr tz) fresh token = token ≡ fresh
Inherits manual_trigger fresh token = token ≡ fresh

abbrev pub HasToken : Option (List ℕ) → ScheduleTrigger → List ℕ → List ℕ → Type 0
HasToken (some (c ∷ own)) old fresh token = token ≡ c ∷ own
HasToken (some []) old fresh token = Inherits old fresh token
HasToken none old fresh token = Inherits old fresh token

-- A trigger after an update, from the one that was asked for: the same, and a webhook with its token.
abbrev pub Becomes : ScheduleTrigger → ScheduleTrigger → List ℕ → ScheduleTrigger → Type 0
Becomes (cron_trigger expr tz) old fresh new = new ≡ cron_trigger expr tz
Becomes (webhook_trigger asked) old fresh new =
    (token : List ℕ) × (new ≡ webhook_trigger (some token)) × HasToken asked old fresh token
Becomes manual_trigger old fresh new = new ≡ manual_trigger

abbrev pub SetsTrigger :
    Option ScheduleTrigger → ScheduleTrigger → List ℕ → ScheduleTrigger → Type 0
SetsTrigger none old fresh new = Becomes old old fresh new
SetsTrigger (some asked) old fresh new = Becomes asked old fresh new

-- The next occurrence: what `nextCronAfter` says after `now`, where the schedule is enabled and its trigger is a
-- cron text that can be parsed, and none otherwise.
abbrev pub Occurs : Result CronError (Option ℕ) → Option ℕ → Type 0
Occurs (err thrown) next = next ≡ none
Occurs (ok at) next = next ≡ at

abbrev pub IsNext : Options → Bool → ScheduleTrigger → ℕ → Option ℕ → Type 0
IsNext options false trigger now next = next ≡ none
IsNext options true (cron_trigger expr tz) now next =
    Occurs (next_cron_after (options.format tz) expr now) next
IsNext options true (webhook_trigger token) now next = next ≡ none
IsNext options true manual_trigger now next = next ≡ none

-- What an update makes of a schedule.
pub record IsUpdate (options : Options) (old : Schedule) (given_update : ScheduleUpdate)
    (fresh : List ℕ) (now : ℕ) (s : Schedule) : Type 0 where
  pub same : (s.sid ≡ old.sid) × (s.tenant ≡ old.tenant)
  pub times :
      (s.created_at ≡ old.created_at) × (s.last_run_at ≡ old.last_run_at) × (s.updated_at ≡ now)
  pub name : Sets given_update.new_name old.name s.name
  pub enabled : Sets given_update.new_enabled old.enabled s.enabled
  pub target : Sets given_update.new_target old.target s.target
  pub push : Sets given_update.new_push old.push s.push
  pub policy : SetsPolicy given_update.new_policy old.policy s.policy
  pub trigger : SetsTrigger given_update.new_trigger old.trigger fresh s.trigger
  pub next_run : IsNext options s.enabled s.trigger now s.next_run_at

given-Sets {ℓ} : {A : Type ℓ} (value : Option A) (old : A) → Sets value old (given value old)
given-Sets none old = refl
given-Sets (some value) old = refl

given_policy-SetsPolicy :
    (value old : Option SchedulePolicy) → SetsPolicy value old (given_policy value old)
given_policy-SetsPolicy none old = refl
given_policy-SetsPolicy (some value) old = refl

token_before-Inherits :
    (old : ScheduleTrigger) (fresh : List ℕ) → Inherits old fresh (token_before old fresh)
token_before-Inherits (webhook_trigger (some (c ∷ own))) fresh = refl
token_before-Inherits (webhook_trigger (some [])) fresh = refl
token_before-Inherits (webhook_trigger none) fresh = refl
token_before-Inherits (cron_trigger expr tz) fresh = refl
token_before-Inherits manual_trigger fresh = refl

own_token-HasToken :
    (asked : Option (List ℕ)) (old : ScheduleTrigger) (fresh : List ℕ)
    → HasToken asked old fresh (own_token asked (token_before old fresh))
own_token-HasToken none old fresh = token_before-Inherits old fresh
own_token-HasToken (some []) old fresh = token_before-Inherits old fresh
own_token-HasToken (some (c ∷ own)) old fresh = refl

with_token-Becomes :
    (asked old : ScheduleTrigger) (fresh : List ℕ)
    → Becomes asked old fresh (with_token asked (token_before old fresh))
with_token-Becomes (cron_trigger expr tz) old fresh = refl
with_token-Becomes (webhook_trigger asked) old fresh =
    (own_token asked (token_before old fresh), refl, own_token-HasToken asked old fresh)
with_token-Becomes manual_trigger old fresh = refl

due-Occurs : (result : Result CronError (Option ℕ)) → Occurs result (due result)
due-Occurs (err thrown) = refl
due-Occurs (ok at) = refl

compute_next_run-IsNext :
    (options : Options) (enabled : Bool) (trigger : ScheduleTrigger) (now : ℕ)
    → IsNext options enabled trigger now
        (if enabled then compute_next_run options trigger now else none)
unfolding compute_next_run
compute_next_run-IsNext options false trigger now = refl
compute_next_run-IsNext options true (cron_trigger expr tz) now =
    due-Occurs (next_cron_after (options.format tz) expr now)
compute_next_run-IsNext options true (webhook_trigger token) now = refl
compute_next_run-IsNext options true manual_trigger now = refl

checked_trigger-same :
    (trigger : ScheduleTrigger) (result : Result CronError (Option ℕ)) {prepared : ScheduleTrigger}
    → checked_trigger trigger result ≡ ok prepared
    → prepared ≡ trigger
checked_trigger-same trigger (err thrown) h = cc
checked_trigger-same trigger (ok none) h = cc
checked_trigger-same trigger (ok (some at)) h = ground (arith, h)

prepare_trigger-same :
    (options : Options) (trigger : ScheduleTrigger) (now : ℕ) {prepared : ScheduleTrigger}
    → prepare_trigger options trigger now ≡ ok prepared
    → prepared ≡ trigger
unfolding prepare_trigger
prepare_trigger-same options (cron_trigger expr tz) now h =
    checked_trigger-same (cron_trigger expr tz) (next_cron_after (options.format tz) expr now) h
prepare_trigger-same options (webhook_trigger token) now h = ground (arith, h)
prepare_trigger-same options manual_trigger now h = ground (arith, h)

prepared-SetsTrigger :
    (options : Options) (asked : Option ScheduleTrigger) (old : Schedule) (now : ℕ) (fresh : List ℕ)
    {trigger : ScheduleTrigger}
    → prepared options asked old now ≡ ok trigger
    → SetsTrigger asked old.trigger fresh (with_token trigger (token_before old.trigger fresh))
prepared-SetsTrigger options none old now fresh {trigger} h =
    let same : trigger ≡ old.trigger = ground (arith, h) in
    rw same (with_token-Becomes old.trigger old.trigger fresh)
prepared-SetsTrigger options (some asked) old now fresh {trigger} h =
    rw (prepare_trigger-same options asked now h) (with_token-Becomes asked old.trigger fresh)

pub updated_schedule-IsUpdate :
    (options : Options) (old : Schedule) (given_update : ScheduleUpdate) (trigger : ScheduleTrigger)
    (fresh : List ℕ) (now : ℕ)
    → prepared options given_update.new_trigger old now ≡ ok trigger
    → IsUpdate options old given_update fresh now (
        updated_schedule options old given_update
          (with_token trigger (token_before old.trigger fresh))
          now)
unfolding updated_schedule
updated_schedule-IsUpdate options old given_update trigger fresh now h = record {
  same = (refl, refl);
  times = (refl, refl, refl);
  name = given-Sets given_update.new_name old.name;
  enabled = given-Sets given_update.new_enabled old.enabled;
  target = given-Sets given_update.new_target old.target;
  push = given-Sets given_update.new_push old.push;
  policy = given_policy-SetsPolicy given_update.new_policy old.policy;
  trigger = prepared-SetsTrigger options given_update.new_trigger old now fresh h;
  next_run =
      compute_next_run-IsNext options (given given_update.new_enabled old.enabled)
        (with_token trigger (token_before old.trigger fresh)) now;
}
