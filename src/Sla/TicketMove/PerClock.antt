-- ===== src/Sla/TicketMove/PerClock.antt =====
-- src/modules/tickets/tickets.service.ts, `transition`: the passes over the clocks, seen from one clock.
use mathlib.Core.List.{map-map, map-id}
use xms_backend.Prelude.{
  ℕ, String, Bool, true, false, not, ◌&&◌, List, [], ◌∷◌, max, map, ap, ◌∙◌, if◌then◌else◌, ◌≡◌,
  refl, sym,
}
use xms_backend.Sla.Engine.{Calendar, Clock, latch, pause, resume}
use xms_backend.Sla.TicketMove.{
  ClockEvent, latch_pass, resume_pass, meet_response, meet_resolution, Move, leave_pause,
  enter_pause, meet, move_clocks,
}

latch_pass-map : (now : ℕ) (cs : List Clock) → (latch_pass now cs).0 ≡ map (λ c. (latch c now).0) cs
unfolding latch_pass
latch_pass-map now [] = refl
latch_pass-map now (c ∷ cs) = ap (λ r. (latch c now).0 ∷ r) (latch_pass-map now cs)

map-if :
    (b : Bool) (f : Clock → Clock) (cs : List Clock)
    → (if b then map f cs else cs) ≡ map (λ c. if b then f c else c) cs
map-if true f cs = refl
map-if false f cs = sym (map-id cs)

first-if :
    (b : Bool) (x y : List Clock × List ClockEvent)
    → (if b then x else y).0 ≡ (if b then x.0 else y.0)
first-if true x y = refl
first-if false x y = refl

module _ (calendar_of : String → Calendar) where
  resume_pass-map :
      (now most : ℕ) (cs : List Clock)
      → (resume_pass calendar_of now most cs).0
        ≡ map (λ c. (resume c (calendar_of c.calendar_id) now).0) cs
  unfolding resume_pass
  resume_pass-map now most [] = refl
  resume_pass-map now most (c ∷ cs) =
      ap (λ r. (resume c (calendar_of c.calendar_id) now).0 ∷ r)
        (resume_pass-map now (max most (resume c (calendar_of c.calendar_id) now).1) cs)

  -- What the move does to one clock.
  unfoldable pub leave_one : Move → Clock → Clock
  leave_one m c =
      if m.from_effects.pause && not m.to_effects.pause
      then (latch (resume c (calendar_of c.calendar_id) m.at).0 m.at).0
      else c

  unfoldable pub enter_one : Move → Clock → Clock
  enter_one m c = if m.to_effects.pause && not m.from_effects.pause then pause c m.at else c

  unfoldable pub meet_one : Move → Clock → Clock
  meet_one m c =
      let answered =
        if m.to_effects.response_met && not m.responded && m.by_internal
        then meet_response m.at c
        else c in
      if m.to_effects.resolve then meet_resolution m.at answered else answered

  unfoldable pub move_one : Move → Clock → Clock
  move_one m c = meet_one m (enter_one m (leave_one m (latch c m.at).0))

  leave_pause-map :
      (m : Move) (cs : List Clock) (es : List ClockEvent)
      → (leave_pause calendar_of m (cs, es)).0 ≡ map (leave_one m) cs
  unfolding leave_one
  leave_pause-map m cs es =
      let test = m.from_effects.pause && not m.to_effects.pause in
      let running = resume_pass calendar_of m.at 0 cs in
      let passes : (latch_pass m.at running.0).0
          ≡ map (λ c. (latch (resume c (calendar_of c.calendar_id) m.at).0 m.at).0) cs =
        latch_pass-map m.at running.0
        ∙ ap (map (λ c. (latch c m.at).0)) (resume_pass-map m.at 0 cs)
        ∙ map-map _ _ cs in
      unfold leave_pause in
      (first-if test _ _ ∙ ap (λ r. if test then r else cs) passes ∙ map-if test _ cs)

  enter_pause-map :
      (m : Move) (cs : List Clock) (es : List ClockEvent)
      → (enter_pause m (cs, es)).0 ≡ map (enter_one m) cs
  unfolding enter_pause enter_one
  enter_pause-map m cs es =
      let test = m.to_effects.pause && not m.from_effects.pause in
      first-if test _ _ ∙ map-if test (λ c. pause c m.at) cs

  meet-map : (m : Move) (cs : List Clock) → meet m cs ≡ map (meet_one m) cs
  unfolding meet meet_one
  meet-map m cs =
      let first = m.to_effects.response_met && not m.responded && m.by_internal in
      let last = m.to_effects.resolve in
      ap (λ r. if last then map (meet_resolution m.at) r else r)
        (map-if first (meet_response m.at) cs)
      ∙ map-if last (meet_resolution m.at) _
      ∙ map-map _ _ cs

  pub move_clocks-map :
      (m : Move) (cs : List Clock) → (move_clocks calendar_of m cs).0 ≡ map (move_one m) cs
  move_clocks-map m cs =
      let first = latch_pass m.at cs in
      let second = leave_pause calendar_of m first in
      let third : second.0 ≡ map (leave_one m) (map (λ c. (latch c m.at).0) cs) =
        leave_pause-map m first.0 first.1 ∙ ap (map (leave_one m)) (latch_pass-map m.at cs) in
      unfold move_clocks move_one in
      (ap (meet m) (enter_pause-map m second.0 second.1 ∙ ap (map (enter_one m)) third)
        ∙ meet-map m _
        ∙ ap (map (meet_one m)) (ap (map (enter_one m)) (map-map _ _ cs) ∙ map-map _ _ cs)
        ∙ map-map _ _ cs)
