-- ===== src/Rewards/Streaks.antt =====
-- How long the runs of common items, and of common or rare ones, are among the items that the crates
-- of nexus_server/rewards.go gave.
use phazechat_world.Prelude.{
  ℕ, ◌+◌, ◌≤◌, max, ◌≡◌, refl, sym, subst, Bool, true, ◌||◌, Option, none, some, List, [], ◌∷◌,
  ◌++◌, arith, eq_iff, String, ◌==◌, if◌then◌else◌,
}
use phazechat_world.Rewards.{
  RewardItem, pity_step, pity_counters, floor_of, reward_by_id, rarity_rank,
}
use phazechat_world.Rewards.Roll.{IsFair}
use phazechat_world.Rewards.History.{pity_counters-append}

abbrev rarity_of : Option RewardItem → String
rarity_of none = ""
rarity_of (some it) = it.rarity

unfoldable pub is_common : String → Bool
is_common id = rarity_of (reward_by_id id) == "common"

unfoldable pub is_below_epic : String → Bool
is_below_epic id = rarity_of (reward_by_id id) == "common" || rarity_of (reward_by_id id) == "rare"

-- The run that a list ends with and the longest run so far, of what passes a test.
abbrev pub streak_step : Bool → ℕ × ℕ → ℕ × ℕ
streak_step b (current, longest) =
    if b then (current + 1, max longest (current + 1)) else (0, longest)

unfoldable pub streak : (String → Bool) → ℕ × ℕ → List String → ℕ × ℕ
streak p k [] = k
streak p k (id ∷ ids) = streak p (streak_step (p id) k) ids

-- The longest run of a list.
unfoldable pub longest_run : (String → Bool) → List String → ℕ
unfolding streak
longest_run p ids = (streak p (0, 0) ids).1

-- Nowhere more than three common items in a row, and nowhere more than nine below epic.
abbrev pub IsLucky : List String → Type 0
IsLucky ids = (longest_run is_common ids ≤ 3) × (longest_run is_below_epic ids ≤ 9)

-- The counters bound the runs that the list ends with.
abbrev Paced : ℕ × ℕ → ℕ × ℕ → ℕ × ℕ → Type 0
Paced k c b = (k.0 ≤ 3) × (k.1 ≤ 9) × (c.0 ≤ k.0) × (c.1 ≤ 3) × (b.0 ≤ k.1) × (b.1 ≤ 9)

abbrev pub IsPaced : List String → Type 0
IsPaced ids =
    Paced (pity_counters ids) (streak is_common (0, 0) ids) (streak is_below_epic (0, 0) ids)

-- The same with an item more.
abbrev pub IsPacedNext : List String → String → Type 0
IsPacedNext ids id =
    Paced (pity_step (pity_counters ids) id)
      (streak_step (is_common id) (streak is_common (0, 0) ids))
      (streak_step (is_below_epic id) (streak is_below_epic (0, 0) ids))

streak-append :
    (p : String → Bool) (k : ℕ × ℕ) (ids : List String) (id : String)
    → streak p k (ids ++ id ∷ []) ≡ streak_step (p id) (streak p k ids)
unfolding streak
streak-append p k [] id = refl
streak-append p k (x ∷ ids) id = streak-append p (streak_step (p x) k) ids id

pub IsPaced-append :
    (ids : List String) (id : String) → IsPacedNext ids id → IsPaced (ids ++ id ∷ [])
IsPaced-append ids id h =
    subst
      (λ k.
        Paced k (streak is_common (0, 0) (ids ++ id ∷ []))
          (streak is_below_epic (0, 0) (ids ++ id ∷ [])))
      (sym (pity_counters-append ids id))
      (subst
        (λ c.
          Paced (pity_step (pity_counters ids) id) c (streak is_below_epic (0, 0) (ids ++ id ∷ [])))
        (sym (streak-append is_common (0, 0) ids id))
        (subst
          (λ b.
            Paced (pity_step (pity_counters ids) id)
              (streak_step (is_common id) (streak is_common (0, 0) ids)) b)
          (sym (streak-append is_below_epic (0, 0) ids id)) h))

common_rank : (r : String) → r == "common" ≡ true → rarity_rank r ≡ 0
unfolding rarity_rank
common_rank r e = rw ((eq_iff r "common").0 e) refl

rare_rank : (r : String) → r == "rare" ≡ true → rarity_rank r ≡ 1
unfolding rarity_rank
rare_rank r e = rw ((eq_iff r "rare").0 e) refl

below_epic_rank : (r : String) → r == "common" || r == "rare" ≡ true → rarity_rank r ≤ 1
below_epic_rank r e = ground (arith, common_rank r, rare_rank r, e)

-- A fair roll at the counters keeps the pace.
Paced-step :
    (k c b : ℕ × ℕ) (own : List String) (it : RewardItem) (dupe : Bool)
    → Paced k c b
    → IsFair own (floor_of k.0 k.1) (some (it, dupe))
    → Paced
        (pity_step k it.id)
        (streak_step (is_common it.id) c)
        (streak_step (is_below_epic it.id) b)
unfolding pity_step floor_of is_common is_below_epic
Paced-step (r, e) (c, l) (b, m) own it dupe (hr, he, hc, hl, hb, hm) (listed, above, h, f) =
    ground (
      arith,
      listed,
      above,
      hr,
      he,
      hc,
      hl,
      hb,
      hm,
      common_rank it.rarity,
      below_epic_rank it.rarity,
    )

pub IsPacedNext-fair :
    (ids own : List String) (it : RewardItem) (dupe : Bool)
    → IsPaced ids
    → (let k = pity_counters ids in IsFair own (floor_of k.0 k.1) (some (it, dupe)))
    → IsPacedNext ids it.id
IsPacedNext-fair ids own it dupe h f =
    Paced-step (pity_counters ids) (streak is_common (0, 0) ids) (streak is_below_epic (0, 0) ids)
      own it dupe h f

pub IsPaced-IsLucky : (ids : List String) → IsPaced ids → IsLucky ids
unfolding longest_run
IsPaced-IsLucky ids (_, _, _, l, _, m) = (l, m)

pub IsPaced-none : IsPaced []
unfolding pity_counters streak
IsPaced-none = omega arith
