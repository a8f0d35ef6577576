-- ===== src/RateLimit/Isolation.antt =====
-- src/common/rate-limit/rate-limiter.ts: the decisions on one key, beside those of a counter of its own.
use xms_backend.Prelude.Maps.{
  lookup, lookup-insert, keys_of, kept, lookup-filter, filter-Distinct, insert-Distinct,
}
use xms_backend.Prelude.{
  ℕ, ◌+◌, ◌≤◌, String, false, not, Option, none, some, List, [], ◌∷◌, ◌==◌, ==_iff, filter, ltb,
  if◌then◌else◌, string_key, ◌≡◌, refl, arith, Distinct, ◌⊎◌, inl, inr, Bool-cases, sym, ap, ap₂,
  leb→le, le→leb, ==_refl,
}
use xms_backend.RateLimit.Limiter.{
  LimitDecision, Window, RateLimiter, new, is_over, prune, window_at, count_hit, hit,
}

-- A call of `hit`.
pub record Hit : Type 0 where
  pub key : String
  pub limit : ℕ
  pub at : ℕ

module _ (window_ms : ℕ) where
  -- The decisions of a limiter, each with its key.
  unfoldable pub decisions : RateLimiter → List Hit → List (String × LimitDecision)
  decisions l [] = []
  decisions l (h ∷ hs) =
      let (l', d) = hit l h.key h.limit window_ms h.at in (h.key, d) ∷ decisions l' hs

  -- The counter of one key: no map, no pruning.
  unfoldable pub counter : Option Window → List Hit → List LimitDecision
  counter w [] = []
  counter w (h ∷ hs) =
      let (w', d) = count_hit (window_at w h.at window_ms) h.limit h.at window_ms in
      d ∷ counter (some w') hs

-- No reading of the clock is earlier than the one before it.
abbrev pub InOrder : ℕ → List Hit → Type 0
InOrder t [] = Unit
InOrder t (h ∷ hs) = (t ≤ h.at) × InOrder h.at hs

abbrev pub of_key {ℓ} : {A : Type ℓ} → String → List (String × A) → List A
of_key k [] = []
of_key k (e ∷ es) = let rest = of_key k es in if e.0 == k then e.1 ∷ rest else rest

abbrev pub hits_of : String → List Hit → List Hit
hits_of k hs = filter (λ h. h.key == k) hs

-- The entry of `k` is the counter's window, or the window is over and its entry pruned.
abbrev Agrees : ℕ → ℕ → String → RateLimiter → Option Window → Type 0
Agrees window_ms t k l w =
    (lookup k l.windows ≡ w)
    ⊎ ((v : Window) × (w ≡ some v) × (lookup k l.windows ≡ none) × (v.started_at + window_ms ≤ t))

module _ (window_ms : ℕ) (k : String) where
  Agrees-later :
      (l : RateLimiter) (w : Option Window) (t at : ℕ)
      → t ≤ at
      → Agrees window_ms t k l w
      → Agrees window_ms at k l w
  Agrees-later l w t at le (inl e) = inl e
  Agrees-later l w t at le (inr (v, e, gone, over)) = inr (v, e, gone, omega arith)

  prune-Distinct :
      (l : RateLimiter) (at : ℕ)
      → Distinct (keys_of l.windows)
      → Distinct (keys_of (prune l at window_ms).windows)
  unfolding prune
  prune-Distinct l at d = elim (Bool-cases (ltb at (l.last_prune + window_ms))) [
    | inl y ↦ rw y d
    | inr n ↦ rw n (filter-Distinct (λ w. not (is_over at window_ms w)) l.windows d)
  ]

  kept_agrees :
      (o w : Option Window) (at : ℕ)
      → (o ≡ w) ⊎ ((v : Window) × (w ≡ some v) × (o ≡ none) × (v.started_at + window_ms ≤ at))
      → (kept (λ v. not (is_over at window_ms v)) o ≡ w)
        ⊎ ((v : Window) × (w ≡ some v)
            × (kept (λ v. not (is_over at window_ms v)) o ≡ none)
            × (v.started_at + window_ms ≤ at))
  kept_agrees none w at (inl e) = inl e
  kept_agrees (some v) w at (inl e) = elim (Bool-cases (is_over at window_ms v)) [
    | inl y ↦ rw y (inr (v, sym e, refl, leb→le _ _ y))
    | inr n ↦ rw n (inl e)
  ]
  kept_agrees o w at (inr (v, e, gone, over)) = inr (v, e, rw gone refl, over)

  prune-Agrees :
      (l : RateLimiter) (w : Option Window) (at : ℕ)
      → Distinct (keys_of l.windows)
      → Agrees window_ms at k l w
      → Agrees window_ms at k (prune l at window_ms) w
  unfolding prune
  prune-Agrees l w at d h = elim (Bool-cases (ltb at (l.last_prune + window_ms))) [
    | inl y ↦ rw y h
    | inr n ↦
        rw (n, lookup-filter (λ w. not (is_over at window_ms w)) k l.windows d)
          (kept_agrees (lookup k l.windows) w at h)
  ]

  fresh_window :
      (l : RateLimiter) (w : Option Window) (at : ℕ)
      → Agrees window_ms at k l w
      → window_at (lookup k l.windows) at window_ms ≡ window_at w at window_ms
  unfolding window_at
  fresh_window l w at (inl e) = ap (λ o. window_at o at window_ms) e
  fresh_window l w at (inr (v, e, gone, over)) = rw (gone, e, le→leb _ _ over) refl

  -- What a hit does to the entry of `k`, and to that of another key.
  hit_self :
      (l : RateLimiter) (w : Option Window) (limit at : ℕ)
      → Distinct (keys_of l.windows)
      → Agrees window_ms at k l w
      → let r = hit l k limit window_ms at in
        let c = count_hit (window_at w at window_ms) limit at window_ms in
        (r.1 ≡ c.1) × Agrees window_ms at k r.0 (some c.0)
  unfolding hit
  hit_self l w limit at d h =
      let same = fresh_window (prune l at window_ms) w at (prune-Agrees l w at d h) in
      let count : Window → Window × LimitDecision = λ v. count_hit v limit at window_ms in
      (
        ap (λ v. (count v).1) same,
        inl (rw (lookup-insert k k) (rw (==_refl k) (ap (λ v. some (count v).0) same))),
      )

  hit_key :
      (l : RateLimiter) (w : Option Window) (j : String) (limit at : ℕ)
      → Distinct (keys_of l.windows)
      → j ≡ k
      → Agrees window_ms at k l w
      → let r = hit l j limit window_ms at in
        let c = count_hit (window_at w at window_ms) limit at window_ms in
        (r.1 ≡ c.1) × Agrees window_ms at k r.0 (some c.0)
  hit_key l w j limit at d e h = rw e (hit_self l w limit at d h)

  hit_other :
      (l : RateLimiter) (w : Option Window) (j : String) (limit at : ℕ)
      → Distinct (keys_of l.windows)
      → (j == k) ≡ false
      → Agrees window_ms at k l w
      → Agrees window_ms at k (hit l j limit window_ms at).0 w
  unfolding hit
  hit_other l w j limit at d n h = rw (lookup-insert j k) (rw n (prune-Agrees l w at d h))

  hit-Distinct :
      (l : RateLimiter) (j : String) (limit at : ℕ)
      → Distinct (keys_of l.windows)
      → Distinct (keys_of (hit l j limit window_ms at).0.windows)
  unfolding hit
  hit-Distinct l j limit at d = insert-Distinct j _ _ (prune-Distinct l at d)

  decisions-counter :
      (l : RateLimiter) (w : Option Window) (t : ℕ) (hs : List Hit)
      → Distinct (keys_of l.windows)
      → InOrder t hs
      → Agrees window_ms t k l w
      → of_key k (decisions window_ms l hs) ≡ counter window_ms w (hits_of k hs)
  unfolding decisions counter
  decisions-counter l w t [] d o h = refl
  decisions-counter l w t (x ∷ hs) d o h =
      let now = Agrees-later l w t x.at o.0 h in
      let l' = (hit l x.key x.limit window_ms x.at).0 in
      let d' = hit-Distinct l x.key x.limit x.at d in
      elim (Bool-cases (x.key == k)) [
        | inr n ↦
            rw n (decisions-counter l' w x.at hs d' o.1 (hit_other l w x.key x.limit x.at d n now))
        | inl y ↦
            let (same, agrees) = hit_key l w x.key x.limit x.at d ((==_iff x.key k).0 y) now in
            rw y (ap₂ (λ e es. e ∷ es) same (decisions-counter l' _ x.at hs d' o.1 agrees))
      ]

-- Run a new limiter through hits on any keys, with a window of one length and a clock that does not go
-- back. Its decisions on one key are those of a lone counter fed with that key's hits: neither the
-- other keys nor the pruning in between change a decision.
pub keys_are_isolated :
    (window_ms t : ℕ) (k : String) (hs : List Hit)
    → InOrder t hs
    → of_key k (decisions window_ms new hs) ≡ counter window_ms none (hits_of k hs)
unfolding new
keys_are_isolated window_ms t k hs o =
    decisions-counter window_ms k new none t hs tt o (inl (unfold lookup in refl))
