-- ===== src/Sla/Latch.antt =====
-- src/domain/sla/engine.ts: when a clock latches.
use xms_backend.Prelude.{ℕ, ◌≤◌, ◌≡◌, ◌↔◌, arith, true, false, none, some}
use xms_backend.Sla.Engine.{Clock, latch}

-- A clock newly latches exactly when it is neither met nor breached, is not paused, and is due.
pub latch_iff :
    (c : Clock) (now : ℕ)
    → ((latch c now).1 ≡ true)
      ↔ ((c.met_at ≡ none) × (c.breached_at ≡ none) × (c.paused_at ≡ none) × (c.due_at ≤ now))
unfolding latch
latch_iff c now = ground arith

-- A clock that newly latches is breached from then on, and is otherwise as it was; one that does not
-- is unchanged. A second latch, at any later or earlier instant, changes nothing where the first one
-- latched.
pub latch-latch :
    (c : Clock) (now later : ℕ)
    → ((latch c now).1 ≡ true → (latch c now).0 ≡ record c { breached_at = some now })
      × ((latch c now).1 ≡ false → (latch c now).0 ≡ c)
      × ((latch c now).1 ≡ true → latch (latch c now).0 later ≡ ((latch c now).0, false))
unfolding latch
latch-latch c now later = ground arith
