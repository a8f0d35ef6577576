-- ===== src/Sla/TicketMove/Guarantees.antt =====
-- src/modules/tickets/tickets.service.ts, `transition`: what a move guarantees for a ticket's clocks.
use xms_backend.Prelude.{
  ℕ, String, Bool, true, false, not, ◌&&◌, none, some, List, if◌then◌else◌, ◌≡◌, ◌≢◌, ◌≤◌, inl, inr,
  sym, arith, Memᴰ, mem-map, subst, Bool-cases, ap, ◌∙◌, mem_of_mem-map,
}
use xms_backend.Sla.Engine.{
  Calendar, Clock, is_none, is_live, latch, pause, resume, resume_from, mark_met,
}
use xms_backend.Sla.TicketMove.{Move, move_clocks, is_response}
use xms_backend.Sla.TicketMove.PerClock.{leave_one, enter_one, meet_one, move_one, move_clocks-map}

-- A clock that is breached and not paused.
record IsBlown (at : ℕ) (c c' : Clock) : Type 0 where
  breached : c'.breached_at ≡ some at
  running : c'.paused_at ≡ none
  kind : c'.kind ≡ c.kind
  due : c'.due_at ≡ c.due_at

latch-IsBlown :
    (c : Clock) (at : ℕ)
    → c.met_at ≡ none
    → c.breached_at ≡ none
    → c.paused_at ≡ none
    → c.due_at ≤ at
    → IsBlown at c (latch c at).0
unfolding latch
latch-IsBlown c at m b p d = record {
  breached = ground arith;
  running = ground arith;
  kind = ground arith;
  due = ground arith;
}

mark_met-IsBlown : (at now : ℕ) (c c' : Clock) → IsBlown at c c' → IsBlown at c (mark_met c' now)
unfolding mark_met
mark_met-IsBlown at now c c' h = elim (Bool-cases (is_none c'.met_at)) [
  | inl y ↦ rw y (record { breached = h.breached; running = h.running; kind = h.kind; due = h.due })
  | inr n ↦ rw n h
]

latch_dead : (c : Clock) (now : ℕ) → is_live c ≡ false → (latch c now).0 ≡ c
unfolding latch
latch_dead c now h = rw h

pause_dead : (c : Clock) (now : ℕ) → is_live c ≡ false → pause c now ≡ c
unfolding pause
pause_dead c now h = rw h

resume_running :
    (c : Clock) (calendar : Calendar) (now : ℕ) → c.paused_at ≡ none → (resume c calendar now).0 ≡ c
unfolding resume
resume_running c calendar now h = ap (λ p. (resume_from p c calendar now).0) h

IsBlown-dead : {at : ℕ} {c c' : Clock} → IsBlown at c c' → is_live c' ≡ false
IsBlown-dead {c'} h = ground (arith, h.breached)

if-IsBlown :
    (b : Bool) (at : ℕ) (c x y : Clock)
    → IsBlown at c x
    → IsBlown at c y
    → IsBlown at c (if b then x else y)
if-IsBlown true at c x y hx hy = hx
if-IsBlown false at c x y hx hy = hy

module _ (calendar_of : String → Calendar) where
  leave_one-IsBlown :
      (m : Move) (c c' : Clock) → IsBlown m.at c c' → IsBlown m.at c (leave_one calendar_of m c')
  unfolding leave_one
  leave_one-IsBlown m c c' h =
      let resumed = resume_running c' (calendar_of c'.calendar_id) m.at h.running in
      let latched = latch_dead c' m.at (IsBlown-dead h) in
      if-IsBlown (m.from_effects.pause && not m.to_effects.pause) m.at c _ _
        (subst (λ z. IsBlown m.at c z) (sym (ap (λ z. (latch z m.at).0) resumed ∙ latched)) h) h

  enter_one-IsBlown :
      (m : Move) (c c' : Clock) → IsBlown m.at c c' → IsBlown m.at c (enter_one calendar_of m c')
  unfolding enter_one
  enter_one-IsBlown m c c' h =
      if-IsBlown (m.to_effects.pause && not m.from_effects.pause) m.at c _ _
        (subst (λ z. IsBlown m.at c z) (sym (pause_dead c' m.at (IsBlown-dead h))) h) h

  meet_one-IsBlown :
      (m : Move) (c c' : Clock) → IsBlown m.at c c' → IsBlown m.at c (meet_one calendar_of m c')
  unfolding meet_one
  meet_one-IsBlown m c c' h =
      let met = mark_met-IsBlown m.at m.at c in
      let answered = if-IsBlown (is_response c'.kind) m.at c _ _ (met c' h) h in
      let first =
        if-IsBlown (m.to_effects.response_met && not m.responded && m.by_internal) m.at c _ _
          answered h in
      if-IsBlown m.to_effects.resolve m.at c _ _
        (if-IsBlown (is_response _) m.at c _ _ first (met _ first)) first

  move_one-IsBlown :
      (m : Move) (c : Clock)
      → c.met_at ≡ none
      → c.breached_at ≡ none
      → c.paused_at ≡ none
      → c.due_at ≤ m.at
      → IsBlown m.at c (move_one calendar_of m c)
  unfolding move_one
  move_one-IsBlown m c e b p d =
      meet_one-IsBlown m c _
        (enter_one-IsBlown m c _ (leave_one-IsBlown m c _ (latch-IsBlown c m.at e b p d)))

  -- However a ticket moves, also into a pausing or a resolving state: a clock of the ticket that runs
  -- and is due at the moment of the move comes out of it breached at that moment, and not paused.
  pub no_rescue :
      (m : Move) (clocks : List Clock) {c : Clock}
      → Memᴰ c clocks
      → c.met_at ≡ none
      → c.breached_at ≡ none
      → c.paused_at ≡ none
      → c.due_at ≤ m.at
      → (c' : Clock) × Memᴰ c' (move_clocks calendar_of m clocks).0
        × (c'.breached_at ≡ some m.at)
        × (c'.paused_at ≡ none)
        × (c'.kind ≡ c.kind)
        × (c'.due_at ≡ c.due_at)
  no_rescue m clocks {c} mem e b p d =
      let h = move_one-IsBlown m c e b p d in
      (
        move_one calendar_of m c,
        rw (move_clocks-map calendar_of m clocks) (mem-map (move_one calendar_of m) mem),
        h.breached,
        h.running,
        h.kind,
        h.due,
      )

-- The clock's pause follows the ticket's state: none outside a pausing state, and in one every clock
-- that is neither met nor breached is paused.
abbrev pub Follows : Bool → Clock → Type 0
Follows false c = c.paused_at ≡ none
Follows true c = is_live c ≡ true → c.paused_at ≢ none

latch-Follows : (b : Bool) (c : Clock) (now : ℕ) → Follows b c → Follows b (latch c now).0
unfolding latch
latch-Follows true c now h = ground (arith, h)
latch-Follows false c now h = ground arith

pause-Follows : (c : Clock) (now : ℕ) → Follows true (pause c now)
unfolding pause
pause-Follows c now = ground arith

resume-Follows :
    (c : Clock) (calendar : Calendar) (now : ℕ) → Follows false (resume c calendar now).0
unfolding resume
resume-Follows c calendar now = ground arith

mark_met-Follows : (b : Bool) (c : Clock) (now : ℕ) → Follows b c → Follows b (mark_met c now)
unfolding mark_met
mark_met-Follows true c now h = ground (arith, h)
mark_met-Follows false c now h = ground arith

if-Follows :
    (b : Bool) (test : Bool) (x y : Clock)
    → Follows b x
    → Follows b y
    → Follows b (if test then x else y)
if-Follows b true x y hx hy = hx
if-Follows b false x y hx hy = hy

module _ (calendar_of : String → Calendar) where
  meet_one-Follows :
      (m : Move) (b : Bool) (c : Clock) → Follows b c → Follows b (meet_one calendar_of m c)
  unfolding meet_one
  meet_one-Follows m b c h =
      let met : (c : Clock) → Follows b c → Follows b (mark_met c m.at) =
        λ c h. mark_met-Follows b c m.at h in
      let first =
        if-Follows b (m.to_effects.response_met && not m.responded && m.by_internal) _ _
          (if-Follows b (is_response c.kind) _ _ (met c h) h) h in
      if-Follows b m.to_effects.resolve _ _ (if-Follows b (is_response _) _ _ first (met _ first))
        first

  pauses_follow :
      (from to : Bool) (c : Clock) (now : ℕ)
      → Follows from c
      → let left =
          if from && not to
          then (latch (resume c (calendar_of c.calendar_id) now).0 now).0
          else c in
        Follows to (if to && not from then pause left now else left)
  pauses_follow true true c now h = h
  pauses_follow true false c now h =
      latch-Follows false _ now (resume-Follows c (calendar_of c.calendar_id) now)
  pauses_follow false true c now h = pause-Follows c now
  pauses_follow false false c now h = h

  move_one-Follows :
      (m : Move) (c : Clock)
      → Follows m.from_effects.pause c
      → Follows m.to_effects.pause (move_one calendar_of m c)
  unfolding move_one leave_one enter_one
  move_one-Follows m c h = meet_one-Follows m m.to_effects.pause _ (
      pauses_follow m.from_effects.pause m.to_effects.pause (latch c m.at).0 m.at
        (latch-Follows m.from_effects.pause c m.at h))

  -- If the pauses of a ticket's clocks follow the state that it leaves, they follow the state that it
  -- enters: no clock is paused outside a pausing state, and in one every clock that is neither met nor
  -- breached is.
  pub pauses_follow_state :
      (m : Move) (clocks : List Clock)
      → ((c : Clock) → Memᴰ c clocks → Follows m.from_effects.pause c)
      → (c : Clock) → Memᴰ c (move_clocks calendar_of m clocks).0
      → Follows m.to_effects.pause c
  pauses_follow_state m clocks h c mem =
      let (b, mb, e) =
        mem_of_mem-map (move_one calendar_of m) clocks
          (rw (move_clocks-map calendar_of m clocks) at mem) in
      subst (λ z. Follows m.to_effects.pause z) (sym e) (move_one-Follows m b (h b mb))
