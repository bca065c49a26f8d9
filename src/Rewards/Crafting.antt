-- ===== src/Rewards/Crafting.antt =====
-- What `craftReward` of nexus_server/rewards.go does on each branch.
use phazechat_world.Prelude.{
  ℕ, ◌+◌, ◌≤◌, ◌≡◌, refl, sym, ap, subst, ◌∙◌, ◌≢◌, ◌⊎◌, inl, inr, Bool, true, false, ◌||◌, Option,
  none, some, List, [], ◌∷◌, map, arith, eq_iff, eq_refl, String, keep, any, ltb, ◌==◌, Bool-cases,
  has,
}
use phazechat_world.Rewards.{RewardItem, reward_catalog, reward_by_id, find_item, craft_cost}
use phazechat_world.Rewards.Crates.{
  Craft, Db, RewardError, opened_items, rolled_items, crafted_items, gained, spent, insert_craft,
  craft_found, craft_reward,
}

-- An item of the catalog that a test on ids keeps is among the ids kept.
find_item-has :
    (id : String) (p : String → Bool) (its : List RewardItem) (it : RewardItem)
    → find_item id its ≡ some it
    → p id ≡ true
    → has id (map (λ c. c.id) (keep (λ c. p c.id) its)) ≡ true
unfolding find_item has any
find_item-has id p [] it e h = ground (arith, e)
find_item-has id p (c ∷ its) it e h = elim (Bool-cases (c.id == id)) [
  | inl q ↦ let same = (eq_iff c.id id).0 q in rw (ap p same ∙ h) (ground (arith, q))
  | inr q ↦ elim (Bool-cases (p c.id)) [
    | inl b ↦ rw b (ground (arith, q, find_item-has id p its it (ground (arith, e, q)) h))
    | inr b ↦ rw b (find_item-has id p its it (ground (arith, e, q)) h)
  ]
]

-- An item bought is one more of the inventory and costs what it costs.
abbrev pub IsBought : String → String → RewardItem → Db → Db → Type 0
IsBought owner item it db db' =
    (has item (opened_items owner db) ≡ false)
    × (has item (opened_items owner db') ≡ true)
    × (spent owner db'.crafts ≡ spent owner db.crafts + craft_cost it.rarity)
    × (spent owner db'.crafts ≤ gained owner db'.crates)
    × (db'.crates ≡ db.crates)

opened_items-has :
    (owner item : String) (it : RewardItem) (db : Db)
    → reward_by_id item ≡ some it
    → has item (rolled_items owner db) || has item (crafted_items owner db.crafts) ≡ true
    → has item (opened_items owner db) ≡ true
unfolding opened_items reward_by_id
opened_items-has owner item it db found h =
    find_item-has item
      (λ id. has id (rolled_items owner db) || has id (crafted_items owner db.crafts))
      reward_catalog it found h

-- The UNIQUE of the table refuses no item that the inventory has not.
not_crafted :
    (owner item : String) (it : RewardItem) (db : Db)
    → reward_by_id item ≡ some it
    → has item (opened_items owner db) ≡ false
    → has item (crafted_items owner db.crafts) ≡ false
not_crafted owner item it db found fresh =
    elim (Bool-cases (has item (crafted_items owner db.crafts))) [
      | inl e ↦ ground (arith, fresh, opened_items-has owner item it db found (ground (arith, e)))
      | inr e ↦ e
    ]

with_craft : String → String → ℕ → Db → Db
with_craft owner item cost db = record db {
  crafts = record { owner = owner; item = item; cost = cost } ∷ db.crafts;
}

crafted_items-has :
    (owner item : String) (cost : ℕ) (cs : List Craft)
    → has item (crafted_items owner (record { owner = owner; item = item; cost = cost } ∷ cs))
      ≡ true
unfolding crafted_items has any
crafted_items-has owner item cost cs =
    rw ((eq_iff owner owner).1 refl) (rw ((eq_iff item item).1 refl) refl)

with_craft-IsBought :
    (owner item : String) (it : RewardItem) (db : Db)
    → reward_by_id item ≡ some it
    → has item (opened_items owner db) ≡ false
    → spent owner db.crafts + craft_cost it.rarity ≤ gained owner db.crates
    → IsBought owner item it db (with_craft owner item (craft_cost it.rarity) db)
unfolding with_craft spent
with_craft-IsBought owner item it db found fresh paid = (
  fresh,
  opened_items-has owner item it (with_craft owner item (craft_cost it.rarity) db) found
      (ground (arith, crafted_items-has owner item (craft_cost it.rarity) db.crafts)),
  ground (arith, eq_refl owner),
  ground (arith, eq_refl owner, paid),
  refl,
)

-- What crafting comes to, error or not.
abbrev pub Crafted : String → String → Db → Option RewardError × Db → Type 0
Crafted owner item db (e, db') =
    ((e ≢ none) × (db' ≡ db))
    ⊎ ((e ≡ none)
        × ((it : RewardItem) × (reward_by_id item ≡ some it) × IsBought owner item it db db'))

craft_found-bought :
    (owner item : String) (it : RewardItem) (db : Db)
    → has item (opened_items owner db) ≡ false
    → ltb (gained owner db.crates) (spent owner db.crafts + craft_cost it.rarity) ≡ false
    → has item (crafted_items owner db.crafts) ≡ false
    → craft_found (some it) owner item db ≡ (none, with_craft owner item (craft_cost it.rarity) db)
unfolding craft_found insert_craft with_craft
craft_found-bought owner item it db e l n = rw (e, l, n) refl

craft_found-Crafted :
    (found : Option RewardItem) (owner item : String) (db : Db)
    → reward_by_id item ≡ found
    → Crafted owner item db (craft_found found owner item db)
unfolding craft_found insert_craft with_craft
craft_found-Crafted none owner item db f = inl (λ e. cc, refl)
craft_found-Crafted (some it) owner item db f =
    elim (Bool-cases (has item (opened_items owner db))) [
      | inl e ↦ rw e (inl (λ h. cc, refl))
      | inr e ↦
          elim (Bool-cases
            (ltb (gained owner db.crates) (spent owner db.crafts + craft_cost it.rarity))) [
              | inl l ↦ rw (e, l) (inl (λ h. cc, refl))
              | inr l ↦
                  subst (Crafted owner item db)
                    (sym
                      (craft_found-bought owner item it db e l (not_crafted owner item it db f e)))
                    (inr
                      (refl, (it, f, with_craft-IsBought owner item it db f e (ground (arith, l)))))
            ]
    ]

-- Crafting either gives an error and changes no table, or gives none: then the item is of the
-- catalog, it was not in the inventory and is now, what the account spent is more by what its rarity
-- costs and no more than its crates gave, and no crate changes.
pub craft_reward-Crafted :
    (owner item : String) (db : Db) → Crafted owner item db (craft_reward owner item db)
unfolding craft_reward
craft_reward-Crafted owner item db = craft_found-Crafted (reward_by_id item) owner item db refl
