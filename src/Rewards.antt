-- ===== src/Rewards.antt =====
-- nexus_server/rewards.go, the catalog and the roll of a crate. The two calls of `intn` in
-- `rollReward` are two arguments, `draw` for the rarity and `draw'` for the item.
pub mod Roll
pub mod Crates
pub mod History
pub mod Streaks
pub mod Fairness
pub mod Runs
pub mod Crafting
pub mod Limits
use mathlib.Core.Option
use phazechat_world.Prelude.{
  ℕ, zero, suc, ◌+◌, ◌-◌, ◌*◌, ◌/◌, ◌%◌, ◌≤◌, ◌<◌, min, max, ◌≡◌, refl, sym, ap, subst, ◌∙◌, ◌≢◌,
  ◌↔◌, ◌⊎◌, inl, inr, Bool, true, false, not, ◌&&◌, ◌||◌, Option, none, some, List, [], ◌∷◌, ◌++◌,
  map, arith, eq_iff, eq_refl, String, Map, lookup, insert, delete, retain, guarded, lookup-insert,
  lookup-delete, lookup-retain, modify, update_all, apply, lookup-modify, lookup-update_all,
  map_laws, length, keep, any, All, length-append, length-keep-le, get_elem?, All-keep, keep-All,
  All-get, get_elem?-total, keep-append, keep-none, ltb, leb, eqb, ◌==◌, if◌then◌else◌, Bool-cases,
  Option-cases, trim_space, has, without, including, has-without, has-including, has-All, is_empty,
  starts_with,
}

pub record RewardItem : Type 0 where
  pub id : String
  pub kind : String
  pub rarity : String

abbrev pub item : String → String → String → RewardItem
item id kind rarity = record { id = id; kind = kind; rarity = rarity }

abbrev pub reward_catalog : List RewardItem
reward_catalog =
    item "squad" "emoticon" "common"
    ∷ item "cheers" "emoticon" "common"
    ∷ item "boba" "emoticon" "common"
    ∷ item "sticker-hello" "sticker" "common"
    ∷ item "sticker-gg" "sticker" "common"
    ∷ item "comet" "emoticon" "rare"
    ∷ item "rocket" "emoticon" "rare"
    ∷ item "sticker-cat" "sticker" "rare"
    ∷ item "fx-confetti" "effect" "rare"
    ∷ item "fx-hearts" "effect" "rare"
    ∷ item "crown" "emoticon" "epic"
    ∷ item "diamond" "emoticon" "epic"
    ∷ item "sticker-cosmic" "sticker" "epic"
    ∷ item "fx-fireworks" "effect" "epic"
    ∷ item "legend" "emoticon" "legendary"
    ∷ item "fx-aurora" "effect" "legendary"
    ∷ []

abbrev pub rarity_order : List String
rarity_order = "common" ∷ "rare" ∷ "epic" ∷ "legendary" ∷ []

-- The maps by rarity: 0 for a text that is none.
unfoldable pub rarity_weight : String → ℕ
rarity_weight r =
    if r == "common"
    then 60
    else if r == "rare"
    then 28
    else if r == "epic"
    then 10
    else if r == "legendary"
    then 2
    else 0

unfoldable pub shards_for_duplicate : String → ℕ
shards_for_duplicate r =
    if r == "common"
    then 10
    else if r == "rare"
    then 30
    else if r == "epic"
    then 80
    else if r == "legendary"
    then 250
    else 0

unfoldable pub craft_cost : String → ℕ
craft_cost r =
    if r == "common"
    then 30
    else if r == "rare"
    then 90
    else if r == "epic"
    then 250
    else if r == "legendary"
    then 700
    else 0

abbrev pub pity_rare_after : ℕ
pity_rare_after = 3

abbrev pub pity_epic_after : ℕ
pity_epic_after = 9

unfoldable pub index_of : ℕ → String → List String → ℕ
index_of i r [] = 0
index_of i r (x ∷ xs) = if x == r then i else index_of (i + 1) r xs

unfoldable pub rarity_rank : String → ℕ
unfolding index_of
rarity_rank r = index_of 0 r rarity_order

unfoldable pub find_item : String → List RewardItem → Option RewardItem
find_item id [] = none
find_item id (it ∷ its) = if it.id == id then some it else find_item id its

unfoldable pub reward_by_id : String → Option RewardItem
unfolding find_item
reward_by_id id = find_item id reward_catalog

-- One round of the loop of `pityCounters`: how many in a row came up below rare, and below epic.
unfoldable pub pity_step : ℕ × ℕ → String → ℕ × ℕ
pity_step (since_rare, since_epic) id = elim (reward_by_id id) [
  | none ↦ (since_rare, since_epic)
  | some it ↦ (
    if leb 1 (rarity_rank it.rarity) then 0 else since_rare + 1,
    if leb 2 (rarity_rank it.rarity) then 0 else since_epic + 1,
  )
]

unfoldable pub pity_loop : ℕ × ℕ → List String → ℕ × ℕ
pity_loop counters [] = counters
pity_loop counters (id ∷ ids) = pity_loop (pity_step counters id) ids

unfoldable pub pity_counters : List String → ℕ × ℕ
unfolding pity_loop
pity_counters opened = pity_loop (0, 0) opened

unfoldable pub floor_of : ℕ → ℕ → ℕ
floor_of since_rare since_epic =
    if leb pity_epic_after since_epic then 2 else if leb pity_rare_after since_rare then 1 else 0

-- The sum of the weights from a floor on.
unfoldable pub total_weight : ℕ → List String → ℕ
total_weight floor [] = 0
total_weight floor (r ∷ rs) =
    (if leb floor (rarity_rank r) then rarity_weight r else 0) + total_weight floor rs

-- The loop that turns a number into a rarity; `fallback` is what it started from.
unfoldable pub pick_rarity : ℕ → ℕ → String → List String → String
pick_rarity floor n fallback [] = fallback
pick_rarity floor n fallback (r ∷ rs) =
    if ltb (rarity_rank r) floor
    then pick_rarity floor n fallback rs
    else if ltb n (rarity_weight r)
    then r
    else pick_rarity floor (n - rarity_weight r) fallback rs

-- `rarityOrder[floor]`
unfoldable pub rarity_at : ℕ → String
rarity_at floor = elim (get_elem? rarity_order floor) [ none ↦ "" | some r ↦ r ]

unfoldable pub roll_rarity : ℕ → (ℕ → ℕ) → String
unfolding total_weight pick_rarity rarity_at
roll_rarity floor draw =
    pick_rarity floor (draw (total_weight floor rarity_order)) (rarity_at floor) rarity_order

unfoldable pub all_of : String → List RewardItem
all_of rarity = keep (λ c. c.rarity == rarity) reward_catalog

unfoldable pub fresh_of : List String → String → List RewardItem
unfolding all_of
fresh_of owned rarity = keep (λ c. not (has c.id owned)) (all_of rarity)

-- `xs[intn(len(xs))]` and whether it is a duplicate; `none` is a panic.
unfoldable pub choose : List RewardItem → (ℕ → ℕ) → Bool → Option (RewardItem × Bool)
choose items draw dupe = Option.map (λ it. (it, dupe)) (get_elem? items (draw (length items)))

unfoldable pub pick_item : List String → String → (ℕ → ℕ) → Option (RewardItem × Bool)
pick_item owned rarity draw =
    if ltb 0 (length (fresh_of owned rarity))
    then choose (fresh_of owned rarity) draw false
    else choose (all_of rarity) draw true

unfoldable pub roll_reward : List String → ℕ → ℕ → (ℕ → ℕ) → (ℕ → ℕ) → Option (RewardItem × Bool)
unfolding floor_of
roll_reward owned since_rare since_epic draw draw' =
    pick_item owned (roll_rarity (floor_of since_rare since_epic) draw) draw'
