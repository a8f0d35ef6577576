-- ===== src/RateLimit/Limiter.antt =====
-- src/common/rate-limit/rate-limiter.ts: the class `RateLimiter`. The clock's reading is an argument,
-- in milliseconds; `at - start >= span` is written `start + span ≤ at`, which is the same on whole
-- numbers and needs no difference below zero.
use xms_backend.Prelude.Maps.{lookup, insert}
use xms_backend.Prelude.{
  ℕ, ◌+◌, ◌-◌, ◌/◌, String, Bool, true, false, not, Option, none, some, List, [], max, filter,
  length, leb, ltb, if◌then◌else◌, string_key,
}

pub record LimitDecision : Type 0 where
  pub allowed : Bool
  pub remaining : ℕ
  pub retry_after_seconds : ℕ
  pub first_refusal : Bool

pub record Window : Type 0 where
  pub count : ℕ
  pub started_at : ℕ
  pub refused : Bool

pub record RateLimiter : Type 0 where
  pub windows : List (String × Window)
  pub last_prune : ℕ

unfoldable pub new : RateLimiter
new = record { windows = []; last_prune = 0 }

abbrev pub is_over : ℕ → ℕ → Window → Bool
is_over at window_ms w = leb (w.started_at + window_ms) at

unfoldable pub prune : RateLimiter → ℕ → ℕ → RateLimiter
prune l at window_ms = if ltb at (l.last_prune + window_ms) then l else record {
  windows = filter (λ e. not (is_over at window_ms e.1)) l.windows;
  last_prune = at;
}

-- The window that the hit falls into: the one on record, or a new one if there is none or it is over.
unfoldable pub window_at : Option Window → ℕ → ℕ → Window
window_at none at window_ms = record { count = 0; started_at = at; refused = false }
window_at (some w) at window_ms =
    if is_over at window_ms w then record { count = 0; started_at = at; refused = false } else w

-- What is left of `hit` once the window is found: the window as it is changed, and the decision. A
-- whole number of seconds is rounded up.
unfoldable pub count_hit : Window → ℕ → ℕ → ℕ → Window × LimitDecision
count_hit w limit at window_ms =
    let counted = w.count + 1 in
    let retry = max 1 ((w.started_at + window_ms - at + 999) / 1000) in
    if ltb limit counted
    then (
      record w { count = counted; refused = true },
      record {
        allowed = false;
        remaining = 0;
        retry_after_seconds = retry;
        first_refusal = not w.refused;
      },
    )
    else (
      record w { count = counted },
      record {
        allowed = true;
        remaining = limit - counted;
        retry_after_seconds = retry;
        first_refusal = false;
      },
    )

unfoldable pub hit : RateLimiter → String → ℕ → ℕ → ℕ → RateLimiter × LimitDecision
unfolding prune window_at count_hit
hit l key limit window_ms at =
    let pruned = prune l at window_ms in
    let (w, decision) =
      count_hit (window_at (lookup key pruned.windows) at window_ms) limit at window_ms in
    (record pruned { windows = insert key w pruned.windows }, decision)

unfoldable pub size : RateLimiter → ℕ
size l = length l.windows
