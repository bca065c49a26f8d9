-- ===== src/Turn/Cache.antt =====
-- The cache of nexus_server/cfturn.go over every sequence of calls and of fetches that end.
use phazechat_world.Prelude.{
  ℕ, ◌+◌, ◌-◌, ◌≤◌, ◌<◌, ◌≡◌, refl, sym, subst, ◌∙◌, ◌⊎◌, inl, inr, Bool, true, false, Option, none,
  some, List, [], ◌∷◌, arith, All, ltb, Bool-cases, Option-cases,
}
use phazechat_world.Turn.{
  TurnConfig, CfTurn, Reply, serves, fetches, refuses, usable, is_stale, config_with, config,
  refresh, cf_turn_ttl, cf_turn_retry_after,
}

-- A call of `Config`, and the end of a fetch that some call started.
pub data Event : Type 0 where
  asks : Event
  ends : Option TurnConfig → Event

unfoldable pub step : ℕ → Event → CfTurn → CfTurn
unfolding config refresh
step now asks c = (config now c).1
step now (ends result) c = (refresh now result c).1

unfoldable pub steps : List (ℕ × Event) → CfTurn → CfTurn
unfolding step
steps [] c = c
steps ((now, e) ∷ es) c = steps es (step now e c)

-- The times do not run backwards, from one to another.
abbrev pub IsClock : ℕ → List (ℕ × Event) → ℕ → Type 0
IsClock t [] now = t ≤ now
IsClock t ((u, e) ∷ es) now = (t ≤ u) × IsClock u es now

config-kept :
    (found : Option TurnConfig) (now : ℕ) (c : CfTurn)
    → ((config_with found now c).1.cached ≡ c.cached)
      × ((config_with found now c).1.expires ≡ c.expires)
      × ((config_with found now c).1.last_fail ≡ c.last_fail)
unfolding config_with
config-kept none now c = ground arith
config-kept (some cfg) now c = ground arith

-- The cache holds a set that lasts until a time.
abbrev Lasts : ℕ → CfTurn → Type 0
Lasts until c = ((cfg : TurnConfig) × (c.cached ≡ some cfg)) × (until ≤ c.expires)

step-Lasts :
    (until now : ℕ) (e : Event) (c : CfTurn)
    → until ≤ now + cf_turn_ttl
    → Lasts until c
    → Lasts until (step now e c)
unfolding step config refresh
step-Lasts until now asks c h ((cfg, e), l) =
    let (k, x, f) = config-kept (usable now c) now c in ((cfg, k ∙ e), omega (arith, x, l))
step-Lasts until now (ends none) c h ((cfg, e), l) = ((cfg, e), l)
step-Lasts until now (ends (some cfg)) c h k = ((cfg, refl), omega (arith, h))

steps-Lasts :
    (until t now : ℕ) (es : List (ℕ × Event)) (c : CfTurn)
    → IsClock t es now
    → until ≤ t + cf_turn_ttl
    → Lasts until c
    → Lasts until (steps es c)
unfolding steps
steps-Lasts until t now [] c k h l = l
steps-Lasts until t now ((u, e) ∷ es) c (b, k) h l =
    steps-Lasts until u now es (step u e c) k (omega (arith, b, h))
      (step-Lasts until u e c (omega (arith, b, h)) l)

abbrev pub is_served : Reply → Bool
is_served (serves cfg renews) = true
is_served fetches = false
is_served refuses = false

config_with-is_served :
    (cfg : TurnConfig) (now : ℕ) (c : CfTurn) → is_served (config_with (some cfg) now c).0 ≡ true
unfolding config_with
config_with-is_served cfg now c = ground arith

Lasts-usable :
    (until now : ℕ) (c : CfTurn)
    → now < until
    → Lasts until c
    → (cfg : TurnConfig) × (usable now c ≡ some cfg)
unfolding usable
Lasts-usable until now c h ((cfg, e), l) = (cfg, ground (arith, e, h, l))

-- Once a fetch has given a set, every call of the next 48 hours is given one at once, whatever calls
-- come between and whatever later fetches give or fail.
pub config-served :
    (c : CfTurn) (cfg : TurnConfig) (t now : ℕ) (es : List (ℕ × Event))
    → IsClock t es now
    → now < t + cf_turn_ttl
    → is_served (config now (steps es (step t (ends (some cfg)) c))).0 ≡ true
unfolding config step refresh
config-served c cfg t now es k h =
    let c' = steps es (step t (ends (some cfg)) c) in
    let (d, e) = Lasts-usable (t + cf_turn_ttl) now c' h (
      steps-Lasts (t + cf_turn_ttl) t now es (step t (ends (some cfg)) c) k (omega arith)
        ((cfg, refl), omega arith)) in
    subst (λ o. is_served (config_with o now c').0 ≡ true) (sym e) (config_with-is_served d now c')

-- A set that a fetch gave less than 48 hours before.
abbrev pub IsFetched : ℕ → TurnConfig → List (ℕ × Event) → Type 0
IsFetched now cfg [] = ⊥
IsFetched now cfg ((t, asks) ∷ es) = IsFetched now cfg es
IsFetched now cfg ((t, ends none) ∷ es) = IsFetched now cfg es
IsFetched now cfg ((t, ends (some d)) ∷ es) =
    ((d ≡ cfg) × (now < t + cf_turn_ttl)) ⊎ IsFetched now cfg es

abbrev Holds : ℕ → TurnConfig → CfTurn → Type 0
Holds now cfg c = (c.cached ≡ some cfg) × (now < c.expires)

steps-Holds :
    (now : ℕ) (cfg : TurnConfig) (es : List (ℕ × Event)) (c : CfTurn)
    → Holds now cfg (steps es c)
    → Holds now cfg c ⊎ IsFetched now cfg es
unfolding steps step config refresh
steps-Holds now cfg [] c h = inl h
steps-Holds now cfg ((t, asks) ∷ es) c h =
    let (k, x, f) = config-kept (usable t c) t c in
    elim (steps-Holds now cfg es (step t asks c) h) [
      | inl (e, l) ↦ inl (sym k ∙ e, omega (arith, x, l))
      | inr q ↦ inr q
    ]
steps-Holds now cfg ((t, ends none) ∷ es) c h = steps-Holds now cfg es (step t (ends none) c) h
steps-Holds now cfg ((t, ends (some d)) ∷ es) c h =
    elim (steps-Holds now cfg es (step t (ends (some d)) c) h) [
      | inl (e, l) ↦ inr (inl (cc, l))
      | inr q ↦ inr (inr q)
    ]

-- No fetch failed in the minute before.
abbrev pub IsCalm : ℕ → ℕ × Event → Type 0
IsCalm now (t, asks) = Unit {0}
IsCalm now (t, ends none) = t + cf_turn_retry_after ≤ now
IsCalm now (t, ends (some d)) = Unit {0}

-- A fetch failed in the minute before.
abbrev pub HasFailed : ℕ → List (ℕ × Event) → Type 0
HasFailed now [] = ⊥
HasFailed now ((t, asks) ∷ es) = HasFailed now es
HasFailed now ((t, ends none) ∷ es) = (now < t + cf_turn_retry_after) ⊎ HasFailed now es
HasFailed now ((t, ends (some d)) ∷ es) = HasFailed now es

steps-last_fail :
    (t now : ℕ) (es : List (ℕ × Event)) (c : CfTurn)
    → IsClock t es now
    → c.last_fail ≤ t
    → (c.last_fail ≤ (steps es c).last_fail) × ((steps es c).last_fail ≤ now)
unfolding steps step config refresh
steps-last_fail t now [] c k h = omega (arith, k, h)
steps-last_fail t now ((u, asks) ∷ es) c (b, k) h =
    let (q, x, f) = config-kept (usable u c) u c in
    let (l, r) = steps-last_fail u now es (step u asks c) k (omega (arith, f, b, h)) in
    omega (arith, f, l, r)
steps-last_fail t now ((u, ends none) ∷ es) c (b, k) h =
    let (l, r) = steps-last_fail u now es (step u (ends none) c) k (omega arith) in
    omega (arith, l, r, b, h)
steps-last_fail t now ((u, ends (some d)) ∷ es) c (b, k) h =
    steps-last_fail u now es (step u (ends (some d)) c) k (omega (arith, b, h))

-- Where the last failure is a minute ago, all are.
steps-IsCalm :
    (t last now : ℕ) (es : List (ℕ × Event)) (c : CfTurn)
    → IsClock t es last
    → c.last_fail ≤ t
    → (steps es c).last_fail + cf_turn_retry_after ≤ now
    → All (IsCalm now) es
unfolding steps step config refresh
steps-IsCalm t last now [] c k h w = tt
steps-IsCalm t last now ((u, asks) ∷ es) c (b, k) h w =
    let (q, x, f) = config-kept (usable u c) u c in
    (tt, steps-IsCalm u last now es (step u asks c) k (omega (arith, f, b, h)) w)
steps-IsCalm t last now ((u, ends none) ∷ es) c (b, k) h w =
    let c' = step u (ends none) c in
    let (l, r) = steps-last_fail u last es c' k (omega arith) in
    (omega (arith, l, w), steps-IsCalm u last now es c' k (omega arith) w)
steps-IsCalm t last now ((u, ends (some d)) ∷ es) c (b, k) h w =
    (tt, steps-IsCalm u last now es (step u (ends (some d)) c) k (omega (arith, b, h)) w)

-- The last failure is one of them, or the one before them.
steps-HasFailed :
    (now : ℕ) (es : List (ℕ × Event)) (c : CfTurn)
    → now < (steps es c).last_fail + cf_turn_retry_after
    → (now < c.last_fail + cf_turn_retry_after) ⊎ HasFailed now es
unfolding steps step config refresh
steps-HasFailed now [] c h = inl h
steps-HasFailed now ((u, asks) ∷ es) c h =
    let (q, x, f) = config-kept (usable u c) u c in
    elim (steps-HasFailed now es (step u asks c) h) [
      | inl l ↦ inl (omega (arith, f, l))
      | inr p ↦ inr p
    ]
steps-HasFailed now ((u, ends none) ∷ es) c h =
    inr (steps-HasFailed now es (step u (ends none) c) h)
steps-HasFailed now ((u, ends (some d)) ∷ es) c h =
    steps-HasFailed now es (step u (ends (some d)) c) h

-- What has to be so for a reply.
abbrev pub IsJustified : ℕ → List (ℕ × Event) → Reply → Type 0
IsJustified now es (serves cfg true) = IsFetched now cfg es × All (IsCalm now) es
IsJustified now es (serves cfg false) = IsFetched now cfg es
IsJustified now es fetches = All (IsCalm now) es
IsJustified now es refuses = HasFailed now es

unfoldable pub empty_cache : CfTurn
empty_cache = record { cached = none; expires = 0; last_fail = 0; refreshing = false }

usable-Holds : (now : ℕ) (cfg : TurnConfig) (c : CfTurn) → usable now c ≡ some cfg → Holds now cfg c
unfolding usable
usable-Holds now cfg c e = elim (Option-cases c.cached) [
  | inl n ↦ absurd (ground (arith, n, e))
  | inr (d, n) ↦ (ground (arith, n, e), ground (arith, n, e))
]

steps-IsFetched :
    (now : ℕ) (cfg : TurnConfig) (es : List (ℕ × Event))
    → usable now (steps es empty_cache) ≡ some cfg
    → IsFetched now cfg es
unfolding usable empty_cache
steps-IsFetched now cfg es e =
    elim (steps-Holds now cfg es empty_cache (usable-Holds now cfg (steps es empty_cache) e)) [
      | inl (q, l) ↦ absurd (omega (arith, l))
      | inr q ↦ q
    ]

config_with-IsJustified :
    (found : Option TurnConfig) (now : ℕ) (es : List (ℕ × Event))
    → usable now (steps es empty_cache) ≡ found
    → IsClock 0 es now
    → cf_turn_retry_after ≤ now
    → IsJustified now es (config_with found now (steps es empty_cache)).0
unfolding config_with empty_cache is_stale
config_with-IsJustified none now es e k h =
    let c = steps es empty_cache in
    elim (Bool-cases (ltb (now - c.last_fail) cf_turn_retry_after)) [
      | inl b ↦ rw b (elim (steps-HasFailed now es empty_cache (ground (arith, b))) [
        | inl l ↦ absurd (omega (arith, l, h))
        | inr p ↦ p
      ])
      | inr b ↦ rw b (steps-IsCalm 0 now now es empty_cache k (omega arith) (ground (arith, b)))
    ]
config_with-IsJustified (some cfg) now es e k h =
    let c = steps es empty_cache in
    elim (Bool-cases (is_stale now c)) [
      | inl b ↦ rw b (
        steps-IsFetched now cfg es e,
        steps-IsCalm 0 now now es empty_cache k (omega arith) (ground (arith, b)),
      )
      | inr b ↦ rw b (steps-IsFetched now cfg es e)
    ]

-- From an empty cache, after any calls and fetches at times that do not run backwards and are more
-- than a minute after the clock's zero: a set that `Config` gives came from a fetch less than 48
-- hours before, a fetch is started only where no fetch failed in the last minute, and nothing is
-- given only where one did.
pub config-IsJustified :
    (now : ℕ) (es : List (ℕ × Event))
    → IsClock 0 es now
    → cf_turn_retry_after ≤ now
    → IsJustified now es (config now (steps es empty_cache)).0
unfolding config
config-IsJustified now es k h =
    config_with-IsJustified (usable now (steps es empty_cache)) now es refl k h
