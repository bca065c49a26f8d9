-- ===== src/Rewards/Crates.antt =====
-- The tables of nexus_server/rewards.go and the functions on them. Times are whole seconds, as
-- SQLite's CURRENT_TIMESTAMP; the rows of `reward_crates` stand in the order of their ids and those
-- of `users` in the order of `created_at, username`.
use phazechat_world.Prelude.{
  ℕ, ◌+◌, ◌-◌, Bool, true, false, not, ◌&&◌, ◌||◌, Option, none, some, List, [], ◌∷◌, ◌++◌, map,
  String, Map, lookup, length, keep, any, ltb, leb, eqb, ◌==◌, if◌then◌else◌, has, first_row,
  change_rows,
}
use phazechat_world.Rewards.{
  RewardItem, reward_catalog, reward_by_id, shards_for_duplicate, craft_cost, pity_counters,
  roll_reward,
}

-- The columns of `users` that rewards read.
pub record Referral : Type 0 where
  pub referred_by : String
  pub is_verified : Bool
  pub signup_ip : String

-- A row of `reward_crates`; `opened_at` is 0 while it is NULL, as `item` then is.
pub record Crate : Type 0 where
  pub id : ℕ
  pub owner : String
  pub source : String
  pub item : Option String
  pub shards : ℕ
  pub created_at : ℕ
  pub opened_at : ℕ

-- A row of `reward_crafts`.
pub record Craft : Type 0 where
  pub owner : String
  pub item : String
  pub cost : ℕ

pub record Db : Type 0 where
  pub users : Map Referral
  pub crates : List Crate
  pub crafts : List Craft
  pub next_id : ℕ

abbrev pub max_crates_per_signup_ip : ℕ
max_crates_per_signup_ip = 2

abbrev pub max_crates_per_day : ℕ
max_crates_per_day = 5

abbrev pub day : ℕ
day = 86400

-- `username IN (SELECT source FROM reward_crates)`
unfoldable pub is_source : String → List Crate → Bool
is_source username crates = any (λ c. c.source == username) crates

unfoldable pub is_candidate : String → List Crate → String × Referral → Bool
unfolding is_source
is_candidate owner crates (username, r) =
    r.referred_by == owner && r.is_verified && not (is_source username crates)

unfoldable pub is_today : String → ℕ → Crate → Bool
is_today owner now c = c.owner == owner && ltb now (c.created_at + day)

unfoldable pub today : String → ℕ → List Crate → ℕ
unfolding is_today
today owner now crates = length (keep (is_today owner now) crates)

-- `… JOIN users u ON u.username = rc.source WHERE rc.owner = ? AND u.signup_ip = ?`
unfoldable pub is_from : String → String → Map Referral → Crate → Bool
is_from owner ip users c =
    c.owner == owner && (elim (lookup c.source users) [ none ↦ false | some r ↦ r.signup_ip == ip ])

unfoldable pub same_ip : String → String → Map Referral → List Crate → ℕ
unfolding is_from
same_ip owner ip users crates = length (keep (is_from owner ip users) crates)

-- `INSERT OR IGNORE`, with how many rows it added.
unfoldable pub insert_crate : String → String → ℕ → Db → ℕ × Db
unfolding is_source
insert_crate owner username now db = if is_source username db.crates then (0, db) else (
  1,
  record db {
    crates =
        db.crates
        ++ record {
          id = db.next_id;
          owner = owner;
          source = username;
          item = none;
          shards = 0;
          created_at = now;
          opened_at = 0;
        }
          ∷ [];
    next_id = db.next_id + 1;
  },
)

-- One round of the loop for a candidate that the daily limit leaves.
unfoldable pub grant_one : String → ℕ → String × Referral → Db → ℕ × Db
unfolding same_ip insert_crate
grant_one owner now (username, r) db =
    if not (r.signup_ip == "")
      && leb max_crates_per_signup_ip (same_ip owner r.signup_ip db.users db.crates)
    then (0, db)
    else insert_crate owner username now db

unfoldable pub grant : String → ℕ → List (String × Referral) → Db → ℕ × Db
unfolding today grant_one
grant owner now [] db = (0, db)
grant owner now (c ∷ cs) db =
    let (n, db') = grant_one owner now c db in
    let (m, db'') = grant owner now cs db' in
    if leb max_crates_per_day (today owner now db.crates) then (0, db) else (n + m, db'')

unfoldable pub sync_crates : String → ℕ → Db → ℕ × Db
unfolding is_candidate grant
sync_crates owner now db = grant owner now (keep (is_candidate owner db.crates) db.users) db

unfoldable pub is_unopened : Crate → Bool
is_unopened c = elim c.item [ none ↦ true | some id ↦ false ]

unfoldable pub can_open : String → Crate → Bool
unfolding is_unopened
can_open owner c = c.owner == owner && is_unopened c

unfoldable pub unopened_crates : String → Db → ℕ
unfolding can_open
unopened_crates owner db = length (keep (can_open owner) db.crates)

unfoldable pub is_opened : String → Crate → Bool
unfolding is_unopened
is_opened owner c = c.owner == owner && not (is_unopened c)

-- `ORDER BY opened_at, id` of rows in the order of their ids.
unfoldable pub insert_opened : Crate → List Crate → List Crate
insert_opened c [] = c ∷ []
insert_opened c (d ∷ ds) =
    if leb c.opened_at d.opened_at then c ∷ d ∷ ds else d ∷ insert_opened c ds

unfoldable pub sort_opened : List Crate → List Crate
unfolding insert_opened
sort_opened [] = []
sort_opened (c ∷ cs) = insert_opened c (sort_opened cs)

unfoldable pub item_of : Crate → String
item_of c = elim c.item [ none ↦ "" | some id ↦ id ]

unfoldable pub rolled_items : String → Db → List String
unfolding is_opened sort_opened item_of
rolled_items owner db = map item_of (sort_opened (keep (is_opened owner) db.crates))

unfoldable pub crafted_items : String → List Craft → List String
crafted_items owner crafts = map (λ c. c.item) (keep (λ c. c.owner == owner) crafts)

-- The inventory, in the order of the catalog.
unfoldable pub opened_items : String → Db → List String
unfolding rolled_items crafted_items
opened_items owner db =
    map (λ c. c.id)
      (keep (λ c. has c.id (rolled_items owner db) || has c.id (crafted_items owner db.crafts))
        reward_catalog)

unfoldable pub gained : String → List Crate → ℕ
gained owner [] = 0
gained owner (c ∷ cs) = (if c.owner == owner then c.shards else 0) + gained owner cs

unfoldable pub spent : String → List Craft → ℕ
spent owner [] = 0
spent owner (c ∷ cs) = (if c.owner == owner then c.cost else 0) + spent owner cs

-- The difference, which the source lets be negative and which stops at 0 here.
unfoldable pub shard_balance : String → Db → ℕ
unfolding gained spent
shard_balance owner db = gained owner db.crates - spent owner db.crafts

pub data RewardError : Type 0 where
  no_crates unknown owned not_enough busy panic : RewardError

pub data Opened : Type 0 where
  failed : RewardError → Opened
  opened : RewardItem → Bool → ℕ → Opened

-- `UPDATE … WHERE id = ? AND item IS NULL`, and how many rows it changed.
unfoldable pub spend_crate : ℕ → RewardItem → ℕ → ℕ → Db → ℕ × Db
unfolding is_unopened
spend_crate id it shards now db = (
  length (keep (λ c. eqb c.id id && is_unopened c) db.crates),
  record db {
    crates =
        change_rows (λ c. eqb c.id id && is_unopened c)
          (λ c. record c { item = some it.id; shards = shards; opened_at = now }) db.crates;
  },
)

unfoldable pub shards_of : RewardItem → Bool → ℕ
unfolding shards_for_duplicate
shards_of it dupe = if dupe then shards_for_duplicate it.rarity else 0

-- What was rolled goes into the crate with this id.
unfoldable pub put_reward : ℕ → ℕ → Option (RewardItem × Bool) → Db → Opened × Db
unfolding spend_crate shards_of
put_reward id now none db = (failed panic, db)
put_reward id now (some (it, dupe)) db =
    let (n, db') = spend_crate id it (shards_of it dupe) now db in
    if eqb n 1 then (opened it dupe (shards_of it dupe), db') else (failed busy, db')

-- What is done with the oldest crate that is not open.
unfoldable pub open_found : Option Crate → String → ℕ → (ℕ → ℕ) → (ℕ → ℕ) → Db → Opened × Db
unfolding opened_items put_reward
open_found none owner now draw draw' db = (failed no_crates, db)
open_found (some c) owner now draw draw' db =
    let (since_rare, since_epic) = pity_counters (rolled_items owner db) in
    put_reward c.id now (roll_reward (opened_items owner db) since_rare since_epic draw draw') db

unfoldable pub open_crate : String → ℕ → (ℕ → ℕ) → (ℕ → ℕ) → Db → Opened × Db
unfolding can_open open_found
open_crate owner now draw draw' db =
    open_found (first_row (can_open owner) db.crates) owner now draw draw' db

-- `INSERT INTO reward_crafts`, with its UNIQUE(owner, item).
unfoldable pub insert_craft : String → String → ℕ → Db → Option RewardError × Db
unfolding crafted_items
insert_craft owner item cost db =
    if has item (crafted_items owner db.crafts) then (some owned, db) else (
      none,
      record db { crafts = record { owner = owner; item = item; cost = cost } ∷ db.crafts },
    )

-- What follows once the catalog has been asked for the item. `shardBalance(owner) < cost` is written
-- without the difference, which may be negative.
unfoldable pub craft_found : Option RewardItem → String → String → Db → Option RewardError × Db
unfolding opened_items gained spent insert_craft
craft_found none owner item db = (some unknown, db)
craft_found (some it) owner item db =
    if has item (opened_items owner db)
    then (some owned, db)
    else if ltb (gained owner db.crates) (spent owner db.crafts + craft_cost it.rarity)
    then (some not_enough, db)
    else insert_craft owner item (craft_cost it.rarity) db

unfoldable pub craft_reward : String → String → Db → Option RewardError × Db
unfolding craft_found
craft_reward owner item db = craft_found (reward_by_id item) owner item db
