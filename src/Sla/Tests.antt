-- ===== src/Sla/Tests.antt =====
-- The SLA engine at small inputs. Instants are minutes of 60,000 milliseconds.
use xms_backend.Prelude.{
  ℕ, ◌+◌, ◌*◌, ◌≤◌, String, true, false, none, some, List, [], ◌∷◌, ◌++◌, ◌≡◌, refl, Memᴰ, arith,
}
use xms_backend.Prelude.Int.{pos, negsuc}
use xms_backend.Tickets.StateMachine.Machine.{no_effects}
use xms_backend.Sla.Engine.{
  Calendar, Clock, SlaTargets, response, wall_clock, make, start_clocks, latch, pause, resume,
  remaining,
}
use xms_backend.Sla.Calendars.{wall_clock-IsCalendar}
use xms_backend.Sla.Runs.{
  Op, latches, pauses, resumes, run, breach_is_final, due_is_target_and_pauses, Made,
}
use xms_backend.Sla.WallClock.{remaining-resume-pause}
use xms_backend.Sla.TicketMove.{Move, move_clocks, breached, paused}
use xms_backend.Sla.TicketMove.Guarantees.{no_rescue, pauses_follow_state, Follows}

abbrev minute : ℕ → ℕ
minute n = n * 60000

abbrev targets : SlaTargets
targets = record { response_minutes = some 10; resolution_minutes = none }

-- The response clock, started at minute 100.
abbrev clock : Clock
clock = record {
  kind = response;
  policy_ref = "default";
  calendar_id = "24x7";
  target_minutes = 10;
  started_at = minute 100;
  due_at = minute 110;
  paused_at = none;
  paused_total_minutes = 0;
  met_at = none;
  breached_at = none;
}

started : start_clocks targets "default" wall_clock (minute 100) ≡ clock ∷ []
unfolding start_clocks make wall_clock
started = refl

clock-Made : Made wall_clock targets "default" (minute 100) clock
unfolding start_clocks make wall_clock
clock-Made = Memᴰ.head refl

late : remaining clock wall_clock (minute 113) ≡ negsuc 2
unfolding remaining wall_clock
late = refl

abbrev overdue : List Op
overdue = pauses (minute 105) ∷ resumes (minute 107) ∷ latches (minute 112) ∷ []

overdue_breached : (run wall_clock clock overdue).breached_at ≡ some (minute 112)
unfolding run latch pause resume wall_clock
overdue_breached = refl

breach_is_final_example :
    ((run wall_clock clock overdue).due_at ≤ minute 112)
    × ((run wall_clock clock overdue).paused_at ≡ none)
    × ((run wall_clock clock (overdue ++ pauses (minute 113) ∷ [])).breached_at ≡ some (minute 112))
    × ((run wall_clock clock (overdue ++ pauses (minute 113) ∷ [])).due_at
        ≡ (run wall_clock clock overdue).due_at)
    × ((run wall_clock clock (overdue ++ pauses (minute 113) ∷ [])).target_minutes
        ≡ (run wall_clock clock overdue).target_minutes)
breach_is_final_example =
    breach_is_final wall_clock targets "default" (minute 100) {c = clock} clock-Made overdue
      (pauses (minute 113) ∷ []) overdue_breached

due_is_target_and_pauses_example :
    (run wall_clock clock overdue).due_at
    ≡ wall_clock.add_minutes (run wall_clock clock overdue).started_at (
        (run wall_clock clock overdue).target_minutes
        + (run wall_clock clock overdue).paused_total_minutes)
due_is_target_and_pauses_example =
    due_is_target_and_pauses wall_clock wall_clock-IsCalendar targets "default" (minute 100)
      {c = clock} clock-Made overdue (tt, (tt, (tt, tt)))

remaining-resume-pause_example :
    (before after : ℕ) × (remaining clock wall_clock 6300000 ≡ pos before)
    × (remaining (resume (pause clock 6300000) wall_clock 6412345).0 wall_clock 6412345 ≡ pos after)
    × (after ≤ before)
    × (before ≤ after + 1)
remaining-resume-pause_example =
    remaining-resume-pause clock 6300000 6412345 refl refl refl (omega arith) (omega arith)

-- From a running state into a pausing one.
abbrev hold : ℕ → Move
hold at = record {
  from_effects = no_effects;
  to_effects = record no_effects { pause = true };
  responded = false;
  by_internal = true;
  at = at;
}

abbrev always : String → Calendar
always id = wall_clock

hold_late :
    move_clocks always (hold (minute 111)) (clock ∷ [])
    ≡ (record clock { breached_at = some (minute 111) } ∷ [], breached response ∷ paused ∷ [])
unfolding move_clocks latch pause resume
hold_late = refl

no_rescue_example :
    (c' : Clock) × Memᴰ c' (move_clocks always (hold (minute 111)) (clock ∷ [])).0
    × (c'.breached_at ≡ some (minute 111))
    × (c'.paused_at ≡ none)
    × (c'.kind ≡ response)
    × (c'.due_at ≡ minute 110)
no_rescue_example =
    no_rescue always (hold (minute 111)) (clock ∷ []) {c = clock} (Memᴰ.head refl) refl refl refl
      (omega arith)

one_runs : (c : Clock) → Memᴰ c (clock ∷ []) → c.paused_at ≡ none
one_runs c (Memᴰ.head e) = rw e refl
one_runs c (Memᴰ.tail m) = elim m [ ]

held :
    Memᴰ
      (record clock { paused_at = some (minute 105) })
      (move_clocks always (hold (minute 105)) (clock ∷ [])).0
unfolding move_clocks latch pause resume
held = Memᴰ.head refl

pauses_follow_state_example : Follows true (record clock { paused_at = some (minute 105) })
pauses_follow_state_example =
    pauses_follow_state always (hold (minute 105)) (clock ∷ []) one_runs
      (record clock { paused_at = some (minute 105) }) held
