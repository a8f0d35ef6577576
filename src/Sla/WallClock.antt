-- ===== src/Sla/WallClock.antt =====
-- src/domain/sla/engine.ts on the wall clock, where a minute is 60,000 milliseconds: what pausing and
-- a change of priority do to the time that is left, rounding included.
use xms_backend.Prelude.Int.{pos}
use xms_backend.Prelude.{ℕ, ◌+◌, ◌-◌, ◌*◌, ◌/◌, ◌≤◌, ◌<◌, ◌≡◌, arith, none}
use xms_backend.Sla.Engine.{Clock, wall_clock, pause, resume, remaining, restamp_for_priority}

-- Pausing a running clock that is not yet due and resuming it later costs less than a whole minute and
-- gains nothing: the minutes that remain at the end are those that remained at the start, or one less.
pub remaining-resume-pause :
    (c : Clock) (p r : ℕ)
    → c.met_at ≡ none
    → c.breached_at ≡ none
    → c.paused_at ≡ none
    → p ≤ c.due_at
    → p ≤ r
    → (before after : ℕ) × (remaining c wall_clock p ≡ pos before)
      × (remaining (resume (pause c p) wall_clock r).0 wall_clock r ≡ pos after)
      × (after ≤ before)
      × (before ≤ after + 1)
unfolding remaining wall_clock resume pause
remaining-resume-pause c p r m b u d le = (
  (c.due_at - p) / 60000,
  (c.due_at + (r - p) / 60000 * 60000 - r) / 60000,
  ground arith,
  ground arith,
  ground arith,
  ground arith,
)

restamped_due :
    (c : Clock) (target now : ℕ)
    → c.met_at ≡ none
    → c.breached_at ≡ none
    → c.paused_at ≡ none
    → (restamp_for_priority c target wall_clock now).due_at
      ≡ now + (target - ((now - c.started_at) / 60000 - c.paused_total_minutes)) * 60000
unfolding restamp_for_priority wall_clock
restamped_due c target now m b u = ground arith

-- Take a running clock whose due time is its start, target and pauses, with the pauses over and the
-- due time not passed. A restamp with the clock's own target moves the due time later, by less than a
-- minute, and one with any target leaves no more than the target and no less than nothing.
pub due_at-restamp_for_priority :
    (c : Clock) (target now : ℕ)
    → c.met_at ≡ none
    → c.breached_at ≡ none
    → c.paused_at ≡ none
    → c.due_at ≡ c.started_at + (c.target_minutes + c.paused_total_minutes) * 60000
    → c.started_at + c.paused_total_minutes * 60000 ≤ now
    → now ≤ c.due_at
    → let same = restamp_for_priority c c.target_minutes wall_clock now in
      let other = restamp_for_priority c target wall_clock now in
      (c.due_at ≤ same.due_at)
      × (same.due_at < c.due_at + 60000)
      × (other.due_at ≤ now + target * 60000)
      × (now ≤ other.due_at)
due_at-restamp_for_priority c target now m b u due started running =
    let same = restamped_due c c.target_minutes now m b u in
    let other = restamped_due c target now m b u in
    (omega arith, omega arith, omega arith, omega arith)
