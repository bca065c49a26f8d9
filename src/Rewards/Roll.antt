-- ===== src/Rewards/Roll.antt =====
-- What a roll gives: nexus_server/rewards.go.
use mathlib.Core.Option
use phazechat_world.Prelude.{
  ℕ, zero, suc, ◌-◌, ◌≤◌, ◌<◌, ◌≡◌, refl, sym, subst, inl, inr, Bool, true, false, not, Option,
  none, some, List, [], ◌∷◌, arith, eq_iff, String, length, All, All-keep, keep-All, All-get,
  get_elem?-total, keep-none, ltb, ◌==◌, Bool-cases, has, has-All, is_empty,
}
use phazechat_world.Rewards.{
  RewardItem, reward_catalog, rarity_order, rarity_weight, rarity_rank, index_of, find_item,
  reward_by_id, floor_of, total_weight, pick_rarity, rarity_at, roll_rarity, all_of, fresh_of,
  choose, pick_item, roll_reward,
}

-- What `intn` promises: a number below its argument.
abbrev pub IsDraw : (ℕ → ℕ) → Type 0
IsDraw draw = (n : ℕ) → 0 < n → draw n < n

-- An item of the catalog, found by its own id.
abbrev pub IsListed : RewardItem → Type 0
IsListed it = reward_by_id it.id ≡ some it

catalog-IsListed : All IsListed reward_catalog
unfolding reward_by_id find_item
catalog-IsListed = ground arith

all_of-IsListed : (rarity : String) → All IsListed (all_of rarity)
unfolding all_of
all_of-IsListed rarity = All-keep IsListed (λ c. c.rarity == rarity) reward_catalog catalog-IsListed

fresh_of-IsListed : (owned : List String) (rarity : String) → All IsListed (fresh_of owned rarity)
unfolding fresh_of
fresh_of-IsListed owned rarity =
    All-keep IsListed (λ c. not (has c.id owned)) (all_of rarity) (all_of-IsListed rarity)

abbrev HasRarity : String → RewardItem → Type 0
HasRarity rarity it = (it.rarity == rarity) ≡ true

all_of-HasRarity : (rarity : String) → All (HasRarity rarity) (all_of rarity)
unfolding all_of
all_of-HasRarity rarity = keep-All (λ c. c.rarity == rarity) reward_catalog

fresh_of-HasRarity :
    (owned : List String) (rarity : String) → All (HasRarity rarity) (fresh_of owned rarity)
unfolding fresh_of
fresh_of-HasRarity owned rarity =
    All-keep (HasRarity rarity) (λ c. not (has c.id owned)) (all_of rarity)
      (all_of-HasRarity rarity)

fresh_of-new :
    (owned : List String) (rarity : String)
    → All (λ c. not (has c.id owned) ≡ true) (fresh_of owned rarity)
unfolding fresh_of
fresh_of-new owned rarity = keep-All (λ c. not (has c.id owned)) (all_of rarity)

-- One of the four rarities.
unfoldable pub is_rarity : String → Bool
is_rarity r = has r rarity_order

-- A rarity that is picked is the one to fall back on or one that is not below the floor.
pick_rarity-All :
    (P : String → Type 0) (floor n : ℕ) (fallback : String) (rs : List String)
    → P fallback
    → All (λ r. ltb (rarity_rank r) floor ≡ false → P r) rs
    → P (pick_rarity floor n fallback rs)
unfolding pick_rarity
pick_rarity-All P floor n fallback [] h hs = h
pick_rarity-All P floor n fallback (r ∷ rs) h (p, ps) =
    elim (Bool-cases (ltb (rarity_rank r) floor)) [
      | inl e ↦ rw e (pick_rarity-All P floor n fallback rs h ps)
      | inr e ↦ elim (Bool-cases (ltb n (rarity_weight r))) [
        | inl f ↦ rw (e, f) (p e)
        | inr f ↦ rw (e, f) (pick_rarity-All P floor (n - rarity_weight r) fallback rs h ps)
      ]
    ]

abbrev IsAbove : ℕ → String → Type 0
IsAbove floor r = (floor ≤ rarity_rank r) × (is_rarity r ≡ true)

rarity_at-IsAbove : (floor : ℕ) → floor ≤ 2 → IsAbove floor (rarity_at floor)
unfolding rarity_at rarity_rank is_rarity has index_of
rarity_at-IsAbove zero h = (omega arith, refl)
rarity_at-IsAbove (suc zero) h = (omega arith, refl)
rarity_at-IsAbove (suc (suc zero)) h = (omega arith, refl)
rarity_at-IsAbove (suc (suc (suc k))) h = absurd (omega arith)

order-IsAbove :
    (floor : ℕ) → All (λ r. ltb (rarity_rank r) floor ≡ false → IsAbove floor r) rarity_order
unfolding is_rarity has
order-IsAbove floor = (
  λ e. (ground (arith, e), refl),
  (
    λ e. (ground (arith, e), refl),
    (λ e. (ground (arith, e), refl), (λ e. (ground (arith, e), refl), tt)),
  ),
)

roll_rarity-IsAbove :
    (floor : ℕ) (draw : ℕ → ℕ) → floor ≤ 2 → IsAbove floor (roll_rarity floor draw)
unfolding roll_rarity
roll_rarity-IsAbove floor draw h =
    pick_rarity-All (IsAbove floor) floor (draw (total_weight floor rarity_order)) (rarity_at floor)
      rarity_order (rarity_at-IsAbove floor h) (order-IsAbove floor)

-- Every rarity has an item.
all_of-pos : (r : String) → is_rarity r ≡ true → 0 < length (all_of r)
unfolding is_rarity all_of
all_of-pos r h = has-All (λ q. 0 < length (all_of q)) r rarity_order (omega arith) h

-- What a roll promises: an item of the catalog, of a rarity that is not below the floor, which the
-- user does not own, unless the user owns all items of its rarity: then it is a duplicate.
abbrev pub IsFair : List String → ℕ → Option (RewardItem × Bool) → Type 0
IsFair owned floor none = ⊥
IsFair owned floor (some (it, dupe)) =
    (reward_by_id it.id ≡ some it)
    × (floor ≤ rarity_rank it.rarity)
    × (has it.id owned ≡ dupe)
    × (is_empty (fresh_of owned it.rarity) ≡ dupe)

none_fresh :
    (owned : List String) (rarity : String)
    → length (fresh_of owned rarity) ≡ 0
    → All (λ c. not (has c.id owned) ≡ false) (all_of rarity)
unfolding fresh_of
none_fresh owned rarity = keep-none (λ c. not (has c.id owned)) (all_of rarity)

choose-IsFair :
    (owned : List String) (floor : ℕ) (rarity : String) (draw : ℕ → ℕ) (items : List RewardItem)
    (dupe : Bool)
    → floor ≤ rarity_rank rarity
    → IsDraw draw
    → 0 < length items
    → All IsListed items
    → All (HasRarity rarity) items
    → All (λ c. has c.id owned ≡ dupe) items
    → is_empty (fresh_of owned rarity) ≡ dupe
    → IsFair owned floor (choose items draw dupe)
unfolding choose
choose-IsFair owned floor rarity draw items dupe a d h listed rare mine fresh =
    let i = draw (length items) in
    let (it, e) = get_elem?-total items i (d (length items) h) in
    let q = sym ((eq_iff it.rarity rarity).0 (All-get (HasRarity rarity) items i it rare e)) in
    subst (λ o. IsFair owned floor (Option.map (λ it. (it, dupe)) o)) (sym e)
      (
        All-get IsListed items i it listed e,
        subst (λ r. floor ≤ rarity_rank r) q a,
        All-get (λ c. has c.id owned ≡ dupe) items i it mine e,
        subst (λ r. is_empty (fresh_of owned r) ≡ dupe) q fresh,
      )

not-injective : (b : Bool) → not b ≡ false → b ≡ true
not-injective true e = refl
not-injective false e = cc

All-map :
    (P Q : RewardItem → Type 0) (xs : List RewardItem)
    → ((x : RewardItem) → P x → Q x)
    → All P xs
    → All Q xs
All-map P Q [] f h = tt
All-map P Q (x ∷ xs) f (h, hs) = (f x h, All-map P Q xs f hs)

is_empty-length : (xs : List RewardItem) → is_empty xs ≡ not (ltb 0 (length xs))
is_empty-length [] = refl
is_empty-length (x ∷ xs) = ground arith

pick_item-IsFair :
    (owned : List String) (floor : ℕ) (rarity : String) (draw : ℕ → ℕ)
    → IsAbove floor rarity
    → IsDraw draw
    → IsFair owned floor (pick_item owned rarity draw)
unfolding pick_item
pick_item-IsFair owned floor rarity draw (a, i) d =
    elim (Bool-cases (ltb 0 (length (fresh_of owned rarity)))) [
      | inl e ↦ rw e (
          choose-IsFair owned floor rarity draw (fresh_of owned rarity) false a d
            (ground (arith, e)) (fresh_of-IsListed owned rarity) (fresh_of-HasRarity owned rarity)
            (All-map (λ c. not (has c.id owned) ≡ true) (λ c. has c.id owned ≡ false)
              (fresh_of owned rarity) (λ c h. ground (arith, h)) (fresh_of-new owned rarity))
            (rw (is_empty-length (fresh_of owned rarity), e)))
      | inr e ↦ rw e (
          choose-IsFair owned floor rarity draw (all_of rarity) true a d (all_of-pos rarity i)
            (all_of-IsListed rarity) (all_of-HasRarity rarity)
            (All-map (λ c. not (has c.id owned) ≡ false) (λ c. has c.id owned ≡ true)
              (all_of rarity) (λ c. not-injective (has c.id owned))
              (none_fresh owned rarity (ground (arith, e))))
            (rw (is_empty-length (fresh_of owned rarity), e)))
    ]

floor_of-le : (since_rare since_epic : ℕ) → floor_of since_rare since_epic ≤ 2
unfolding floor_of
floor_of-le since_rare since_epic = ground arith

-- A roll never panics, whatever was drawn. It gives an item of the catalog, of a rarity that is not
-- below the floor: at least epic after nine crates with none, else at least rare after three. The
-- user does not own it, unless the user owns all items of its rarity; exactly then it is a
-- duplicate.
pub roll_reward-IsFair :
    (owned : List String) (since_rare since_epic : ℕ) (draw draw' : ℕ → ℕ)
    → IsDraw draw'
    → IsFair owned
        (floor_of since_rare since_epic)
        (roll_reward owned since_rare since_epic draw draw')
unfolding roll_reward
roll_reward-IsFair owned since_rare since_epic draw draw' d =
    pick_item-IsFair owned (floor_of since_rare since_epic)
      (roll_rarity (floor_of since_rare since_epic) draw) draw'
      (roll_rarity-IsAbove (floor_of since_rare since_epic) draw
        (floor_of-le since_rare since_epic))
      d
