-- ===== src/RateLimit/Bound.antt =====
-- src/common/rate-limit/rate-limiter.ts: how many calls one key gets through in a window.
use xms_backend.Prelude.{
  ℕ, suc, ◌+◌, ◌-◌, ◌≤◌, ◌<◌, min, String, Bool, false, none, some, List, [], ◌∷◌, length, ltb,
  if◌then◌else◌, nat_beq, ◌≡◌, refl, arith, All, ap,
}
use xms_backend.RateLimit.Limiter.{LimitDecision, Window, new, window_at, count_hit}
use xms_backend.RateLimit.Isolation.{
  Hit, decisions, counter, InOrder, of_key, hits_of, keys_are_isolated,
}

abbrev pub count_allowed : List LimitDecision → ℕ
count_allowed [] = 0
count_allowed (d ∷ ds) = let rest = count_allowed ds in if d.allowed then suc rest else rest

abbrev pub count_first_refusals : List LimitDecision → ℕ
count_first_refusals [] = 0
count_first_refusals (d ∷ ds) =
    let rest = count_first_refusals ds in if d.first_refusal then suc rest else rest

-- The hits have this limit, and fall into the window that starts at `start`.
abbrev pub InWindow : ℕ → ℕ → ℕ → Hit → Type 0
InWindow window_ms start limit h = (h.limit ≡ limit) × (start ≤ h.at) × (h.at < start + window_ms)

budget_step :
    (n limit n' len : ℕ) (allowed : Bool) (later : ℕ)
    → n' ≡ n + 1
    → allowed ≡ ltb n limit
    → later ≡ min (limit - n') len
    → (if allowed then suc later else later) ≡ min (limit - n) (suc len)
budget_step n limit n' len allowed later e a h = ground arith

refusal_step :
    (n limit n' len : ℕ) (first : Bool) (later : ℕ)
    → n' ≡ n + 1
    → first ≡ nat_beq n limit
    → later ≡ (if ltb limit n' then 0 else if ltb limit (n' + len) then 1 else 0)
    → (if first then suc later else later)
      ≡ (if ltb limit n then 0 else if ltb limit (n + suc len) then 1 else 0)
refusal_step n limit n' len first later e a h = ground arith

module _ (window_ms limit start : ℕ) where
  -- A window on record is marked as refused once its count has passed the limit.
  record Fits (w : Window) : Type 0 where
    starts : w.started_at ≡ start
    marked : w.refused ≡ ltb limit w.count

  same_window :
      (w : Window) (at : ℕ) → Fits w → at < start + window_ms → window_at (some w) at window_ms ≡ w
  unfolding window_at
  same_window w at f h = ground (arith, f.starts)

  count_hit-Fits : (w : Window) (at : ℕ) → Fits w → Fits (count_hit w limit at window_ms).0
  unfolding count_hit
  count_hit-Fits w at f = record {
    starts = ground (arith, f.starts);
    marked = ground (arith, f.marked);
  }

  count_hit_lem :
      (w : Window) (at : ℕ)
      → Fits w
      → let r = count_hit w limit at window_ms in
        (r.0.count ≡ w.count + 1)
        × (r.1.allowed ≡ ltb w.count limit)
        × (r.1.first_refusal ≡ nat_beq w.count limit)
  unfolding count_hit
  count_hit_lem w at f = (ground arith, ground arith, ground (arith, f.marked))

  counter-cons :
      (w : Window) (x : Hit) (hs : List Hit)
      → Fits w
      → InWindow window_ms start limit x
      → let r = count_hit w limit x.at window_ms in
        counter window_ms (some w) (x ∷ hs) ≡ r.1 ∷ counter window_ms (some r.0) hs
  unfolding counter
  counter-cons w x hs f (l, s, e) = rw (same_window w x.at f e) (rw l refl)

  Budget : Window → List Hit → Type 0
  Budget w hs =
      let ds = counter window_ms (some w) hs in
      (count_allowed ds ≡ min (limit - w.count) (length hs))
      × (count_first_refusals ds
          ≡ (if ltb limit w.count then 0 else if ltb limit (w.count + length hs) then 1 else 0))

  spends_within :
      (w : Window) (hs : List Hit) → Fits w → All (InWindow window_ms start limit) hs → Budget w hs
  unfolding Budget
  spends_within w [] f h = unfold counter in (ground arith, ground arith)
  spends_within w (x ∷ hs) f h =
      let r = count_hit w limit x.at window_ms in
      let (counted, allowed, first) = count_hit_lem w x.at f in
      let ih = spends_within r.0 hs (count_hit-Fits w x.at f) h.1 in
      rw (counter-cons w x hs f h.0) (
        budget_step w.count limit r.0.count (length hs) r.1.allowed _ counted allowed ih.0,
        refusal_step w.count limit r.0.count (length hs) r.1.first_refusal _ counted first ih.1,
      )

counter_open :
    (window_ms : ℕ) (h : Hit) (hs : List Hit)
    → 0 < window_ms
    → counter window_ms none (h ∷ hs)
      ≡ counter window_ms (some (record { count = 0; started_at = h.at; refused = false })) (h ∷ hs)
unfolding counter
counter_open window_ms h hs p =
    ap (λ w. let r = count_hit w h.limit h.at window_ms in r.1 ∷ counter window_ms (some r.0) hs)
      same
  where
    same :
        window_at none h.at window_ms
        ≡ window_at (some (record { count = 0; started_at = h.at; refused = false })) h.at window_ms
    same = unfold window_at in ground arith

-- A new limiter runs through hits on any keys, with a window of one positive length and a clock that
-- does not go back. If the hits on a key all have one limit and fall into the window that the first of
-- them opens, then as many of them are allowed as the limit grants, and exactly one refusal is marked
-- as the first if there are more hits than that, and none otherwise.
pub window_budget :
    (window_ms limit t : ℕ) (k : String) (hs : List Hit) {first : Hit} {rest : List Hit}
    → 0 < window_ms
    → InOrder t hs
    → hits_of k hs ≡ first ∷ rest
    → All (InWindow window_ms first.at limit) (first ∷ rest)
    → let ds = of_key k (decisions window_ms new hs) in
      (count_allowed ds ≡ min limit (length (hits_of k hs)))
      × (count_first_refusals ds ≡ (if ltb limit (length (hits_of k hs)) then 1 else 0))
unfolding Budget
window_budget window_ms limit t k hs {first} {rest} p o e h =
    let open_window : Window = record { count = 0; started_at = first.at; refused = false } in
    let fits : Fits window_ms limit first.at open_window = record {
      starts = refl;
      marked = ground arith;
    } in
    let budget = spends_within window_ms limit first.at open_window (first ∷ rest) fits h in
    let lone = keys_are_isolated window_ms t k hs o in
    let opened = counter_open window_ms first rest p in
    rw (lone, e) (rw opened (ground (arith, budget.0), ground (arith, budget.1)))
