-- ===== src/RateLimit/Tests.antt =====
-- The rate limiter at a short run of hits.
use xms_backend.Prelude.{
  ℕ, min, String, true, false, none, List, [], ◌∷◌, length, ltb, if◌then◌else◌, ◌≡◌, refl, arith,
  All,
}
use xms_backend.Prelude.Maps.{lookup, insert}
use xms_backend.RateLimit.Limiter.{new, hit}
use xms_backend.RateLimit.Isolation.{Hit, decisions, counter, of_key, hits_of, keys_are_isolated}
use xms_backend.RateLimit.Bound.{count_allowed, count_first_refusals, InWindow, window_budget}

abbrev call : String → ℕ → Hit
call key at = record { key = key; limit = 2; at = at }

abbrev calls : List Hit
calls = call "a" 1000 ∷ call "b" 1001 ∷ call "a" 1002 ∷ call "a" 31000 ∷ call "a" 60999 ∷ []

third_refused :
    of_key "a" (decisions 60000 new calls)
    ≡ record { allowed = true; remaining = 1; retry_after_seconds = 60; first_refusal = false }
      ∷ record { allowed = true; remaining = 0; retry_after_seconds = 60; first_refusal = false }
      ∷ record { allowed = false; remaining = 0; retry_after_seconds = 30; first_refusal = true }
      ∷ record { allowed = false; remaining = 0; retry_after_seconds = 1; first_refusal = false }
      ∷ []
unfolding decisions hit new lookup insert
third_refused = refl

keys_are_isolated_example :
    of_key "a" (decisions 60000 new calls) ≡ counter 60000 none (hits_of "a" calls)
keys_are_isolated_example = keys_are_isolated 60000 0 "a" calls (omega arith)

window_budget_example :
    let ds = of_key "a" (decisions 60000 new calls) in
    (count_allowed ds ≡ min 2 (length (hits_of "a" calls)))
    × (count_first_refusals ds ≡ (if ltb 2 (length (hits_of "a" calls)) then 1 else 0))
window_budget_example =
    window_budget 60000 2 0 "a" calls {first = call "a" 1000}
      {rest = call "a" 1002 ∷ call "a" 31000 ∷ call "a" 60999 ∷ []} (omega arith) (omega arith) refl
      window
  where
    window : All (InWindow 60000 1000 2) (hits_of "a" calls)
    window = omega arith
