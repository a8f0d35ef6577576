-- ===== src/Sla/Engine.antt =====
-- src/domain/sla/engine.ts: the SLA engine. An instant is its number of milliseconds since the epoch,
-- a natural number; `null` is `none`; `-0` is 0.
use xms_backend.Prelude.Int.{ℤ, pos, sub_ℕ, neg_ℕ, nonneg}
use xms_backend.Prelude.{
  ℕ, ◌+◌, ◌-◌, ◌*◌, ◌/◌, String, Bool, true, false, not, ◌&&◌, ◌||◌, Option, none, some, List, [],
  ◌∷◌, ◌++◌, leb, ltb, if◌then◌else◌,
}

-- The interface `Calendar`, at whole numbers of minutes.
pub record Calendar : Type 0 where
  pub id : String
  pub add_minutes : ℕ → ℕ → ℕ
  pub minutes_between : ℕ → ℕ → ℕ

-- `WALL_CLOCK`
unfoldable pub wall_clock : Calendar
wall_clock = record {
  id = "24x7";
  add_minutes = λ from minutes. from + minutes * 60000;
  minutes_between = λ a b. (b - a) / 60000;
}

pub data ClockKind : Type 0 where
  response resolution : ClockKind

pub record Clock : Type 0 where
  pub kind : ClockKind
  pub policy_ref : String
  pub calendar_id : String
  pub target_minutes : ℕ
  pub started_at : ℕ
  pub due_at : ℕ
  pub paused_at : Option ℕ
  pub paused_total_minutes : ℕ
  pub met_at : Option ℕ
  pub breached_at : Option ℕ

pub record SlaTargets : Type 0 where
  pub response_minutes : Option ℕ
  pub resolution_minutes : Option ℕ

abbrev pub is_none {ℓ} : {A : Type ℓ} → Option A → Bool
is_none none = true
is_none (some a) = false

-- `paused_at ?? now`
abbrev pub or_now : Option ℕ → ℕ → ℕ
or_now none now = now
or_now (some t) now = t

-- The inner function `make`.
unfoldable pub make : String → Calendar → ℕ → ClockKind → ℕ → Clock
make policy_ref calendar now kind minutes = record {
  kind = kind;
  policy_ref = policy_ref;
  calendar_id = calendar.id;
  target_minutes = minutes;
  started_at = now;
  due_at = calendar.add_minutes now minutes;
  paused_at = none;
  paused_total_minutes = 0;
  met_at = none;
  breached_at = none;
}

-- The two guarded pushes: a target that is absent or not positive starts no clock.
abbrev pub when_positive : Option ℕ → (ℕ → Clock) → List Clock
when_positive none k = []
when_positive (some minutes) k = if ltb 0 minutes then k minutes ∷ [] else []

unfoldable pub start_clocks : SlaTargets → String → Calendar → ℕ → List Clock
start_clocks targets policy_ref calendar now =
    when_positive targets.response_minutes (make policy_ref calendar now response)
    ++ when_positive targets.resolution_minutes (make policy_ref calendar now resolution)

abbrev pub is_live : Clock → Bool
is_live c = is_none c.met_at && is_none c.breached_at

-- The clock, and whether it newly latched.
unfoldable pub latch : Clock → ℕ → Clock × Bool
latch c now =
    if not (is_live c) || not (is_none c.paused_at)
    then (c, false)
    else if ltb now c.due_at
    then (c, false)
    else (record c { breached_at = some now }, true)

unfoldable pub pause : Clock → ℕ → Clock
pause c now =
    if not (is_live c) || not (is_none c.paused_at) then c else record c { paused_at = some now }

-- The clock, and the working minutes that the pause takes out.
abbrev pub resume_from : Option ℕ → Clock → Calendar → ℕ → Clock × ℕ
resume_from none c calendar now = (c, 0)
resume_from (some paused) c calendar now =
    let excluded = calendar.minutes_between paused now in
    (
      record c {
        paused_at = none;
        paused_total_minutes = c.paused_total_minutes + excluded;
        due_at = calendar.add_minutes c.due_at excluded;
      },
      excluded,
    )

unfoldable pub resume : Clock → Calendar → ℕ → Clock × ℕ
resume c calendar now = resume_from c.paused_at c calendar now

unfoldable pub mark_met : Clock → ℕ → Clock
mark_met c now = if is_none c.met_at then record c { met_at = some now } else c

-- The consumed minutes are clamped at 0, and so is what they leave of the target.
unfoldable pub restamp_for_priority : Clock → ℕ → Calendar → ℕ → Clock
restamp_for_priority c target calendar now =
    let reference = or_now c.paused_at now in
    let consumed = sub_ℕ (calendar.minutes_between c.started_at reference) c.paused_total_minutes in
    let left = nonneg (sub_ℕ target (nonneg consumed)) in
    if is_live c
    then record c { target_minutes = target; due_at = calendar.add_minutes reference left }
    else c

pub record ClockView : Type 0 where
  pub kind : ClockKind
  pub due_at : ℕ
  pub remaining_minutes : ℤ
  pub paused : Bool
  pub breached : Bool
  pub met : Bool
  pub target_minutes : ℕ
  pub paused_total_minutes : ℕ

unfoldable pub remaining : Clock → Calendar → ℕ → ℤ
remaining c calendar now =
    let reference = or_now c.paused_at now in
    if leb reference c.due_at
    then pos (calendar.minutes_between reference c.due_at)
    else neg_ℕ (calendar.minutes_between c.due_at reference)

-- `dueAt.toISOString()` is left as the instant.
unfoldable pub view : Clock → Calendar → ℕ → ClockView
unfolding remaining
view c calendar now = record {
  kind = c.kind;
  due_at = c.due_at;
  remaining_minutes = remaining c calendar now;
  paused = not (is_none c.paused_at);
  breached = not (is_none c.breached_at);
  met = not (is_none c.met_at);
  target_minutes = c.target_minutes;
  paused_total_minutes = c.paused_total_minutes;
}
