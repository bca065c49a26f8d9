-- ===== src/Rewards/Runs.antt =====
-- Every run of the requests on the tables of nexus_server/rewards.go.
use phazechat_world.Prelude.{
  ℕ, ◌+◌, ◌≤◌, ◌≡◌, refl, sym, subst, inl, inr, true, not, ◌&&◌, Option, none, some, List, [], ◌∷◌,
  ◌++◌, map, arith, eq_iff, String, lookup, insert, modify, keep, ltb, leb, ◌==◌, if◌then◌else◌,
  Bool-cases, has, Ascends-append,
}
use phazechat_world.Rewards.{RewardItem, reward_by_id, pity_counters, craft_cost}
use phazechat_world.Rewards.Roll.{IsDraw}
use phazechat_world.Rewards.Crates.{
  Referral, Crate, Db, insert_crate, grant_one, grant, sync_crates, opened_items, rolled_items,
  gained, spent, open_crate, insert_craft, craft_found, craft_reward, crafted_items, is_source,
  same_ip, today, max_crates_per_signup_ip, max_crates_per_day, is_unopened, item_of, is_candidate,
}
use phazechat_world.Rewards.History.{
  mine, drops, Played-append, gained-mine, total_shards, total_shards-append, rolled_items-drops,
}
use phazechat_world.Rewards.Streaks.{IsLucky, IsPaced, IsPaced-IsLucky, streak}
use phazechat_world.Rewards.Fairness.{IsKept, IsSound, IsSound-later, open_crate-IsSound}

-- What happens to the tables, each with its time: crates are granted, opened, items are crafted, and
-- accounts sign up and are verified.
pub data Request : Type 0 where
  syncs : String → Request
  opens : String → (ℕ → ℕ) → (ℕ → ℕ) → Request
  crafts_item : String → String → Request
  signs_up : String → Referral → Request
  verifies : String → Request

-- The row of a new account, where the name is not taken.
unfoldable pub sign_up : Option Referral → String → Referral → Db → Db
sign_up none username r db = record db { users = insert username r db.users }
sign_up (some q) username r db = db

unfoldable pub serve : ℕ → Request → Db → Db
unfolding sync_crates open_crate craft_reward sign_up
serve now (syncs owner) db = (sync_crates owner now db).1
serve now (opens owner draw draw') db = (open_crate owner now draw draw' db).1
serve now (crafts_item owner item) db = (craft_reward owner item db).1
serve now (signs_up username r) db = sign_up (lookup username db.users) username r db
serve now (verifies username) db = record db {
  users = modify (λ r. record r { is_verified = true }) username db.users;
}

unfoldable pub serve_all : List (ℕ × Request) → Db → Db
unfolding serve
serve_all [] db = db
serve_all ((now, r) ∷ rs) db = serve_all rs (serve now r db)

-- The clock does not run backwards, and draws are in range.
abbrev pub IsTrace : ℕ → List (ℕ × Request) → Type 0
IsTrace clock [] = Unit {0}
IsTrace clock ((now, syncs owner) ∷ rs) = (clock ≤ now) × IsTrace now rs
IsTrace clock ((now, opens owner draw draw') ∷ rs) = (clock ≤ now) × IsDraw draw' × IsTrace now rs
IsTrace clock ((now, crafts_item owner item) ∷ rs) = (clock ≤ now) × IsTrace now rs
IsTrace clock ((now, signs_up username r) ∷ rs) = (clock ≤ now) × IsTrace now rs
IsTrace clock ((now, verifies username) ∷ rs) = (clock ≤ now) × IsTrace now rs

mine-append :
    (o : String) (cs : List Crate) (c : Crate)
    → mine o (cs ++ c ∷ []) ≡ (if c.owner == o then mine o cs ++ c ∷ [] else mine o cs)
unfolding mine
mine-append o [] c = ground arith
mine-append o (d ∷ cs) c = ground (arith, mine-append o cs c)

drops-append :
    (cs : List Crate) (c : Crate) → is_unopened c ≡ true → drops (cs ++ c ∷ []) ≡ drops cs
unfolding drops
drops-append [] c w = ground (arith, w)
drops-append (d ∷ cs) c w = ground (arith, drops-append cs c w)

-- A crate that waits, of whomever.
IsKept-append :
    (now cost : ℕ) (cs : List Crate) (c : Crate)
    → is_unopened c ≡ true
    → c.shards ≡ 0
    → IsKept now cs cost
    → IsKept now (cs ++ c ∷ []) cost
IsKept-append now cost cs c w s (t, l, k) = (
  Played-append 0 now cs c (w, s) t,
  subst (λ ds. IsPaced (map item_of ds)) (sym (drops-append cs c w)) l,
  omega (arith, k, s, total_shards-append cs c),
)

abbrev new_crate : String → String → ℕ → ℕ → Crate
new_crate owner username at id = record {
  id = id;
  owner = owner;
  source = username;
  item = none;
  shards = 0;
  created_at = at;
  opened_at = 0;
}

append_crate-IsSound :
    (owner username : String) (now at : ℕ) (db : Db) (o : String)
    → IsSound now db
    → IsKept now
        (mine o (db.crates ++ new_crate owner username at db.next_id ∷ []))
        (spent o db.crafts)
append_crate-IsSound owner username now at db o (a, k) =
    rw (mine-append o db.crates (new_crate owner username at db.next_id))
      (elim (Bool-cases (owner == o)) [
        | inl q ↦ rw q (
            IsKept-append now (spent o db.crafts) (mine o db.crates)
              (new_crate owner username at db.next_id) (unfold is_unopened in refl) refl (k o))
        | inr q ↦ rw q (k o)
      ])

insert_crate-IsSound :
    (owner username : String) (now at : ℕ) (db : Db)
    → IsSound now db
    → IsSound now (insert_crate owner username at db).1
unfolding insert_crate
insert_crate-IsSound owner username now at db (a, k) =
    elim (Bool-cases (is_source username db.crates)) [
      | inl e ↦ rw e (a, k)
      | inr e ↦ rw e (
        Ascends-append (λ c. c.id) 0 db.next_id db.crates (new_crate owner username at db.next_id)
            refl a,
        λ o. append_crate-IsSound owner username now at db o (a, k),
      )
    ]

grant_one-IsSound :
    (owner : String) (now at : ℕ) (c : String × Referral) (db : Db)
    → IsSound now db
    → IsSound now (grant_one owner at c db).1
unfolding grant_one
grant_one-IsSound owner now at (username, r) db s =
    elim (Bool-cases (
      not (r.signup_ip == "")
      && leb max_crates_per_signup_ip (same_ip owner r.signup_ip db.users db.crates))) [
        | inl e ↦ rw e s
        | inr e ↦ rw e (insert_crate-IsSound owner username now at db s)
      ]

grant-IsSound :
    (owner : String) (now at : ℕ) (cs : List (String × Referral)) (db : Db)
    → IsSound now db
    → IsSound now (grant owner at cs db).1
unfolding grant
grant-IsSound owner now at [] db s = s
grant-IsSound owner now at (c ∷ cs) db s =
    elim (Bool-cases (leb max_crates_per_day (today owner at db.crates))) [
      | inl e ↦ rw e s
      | inr e ↦ rw e (
          grant-IsSound owner now at cs (grant_one owner at c db).1
            (grant_one-IsSound owner now at c db s))
    ]

insert_craft-IsSound :
    (owner item : String) (cost now : ℕ) (db : Db)
    → spent owner db.crafts + cost ≤ gained owner db.crates
    → IsSound now db
    → IsSound now (insert_craft owner item cost db).1
unfolding insert_craft spent
insert_craft-IsSound owner item cost now db h (a, k) =
    elim (Bool-cases (has item (crafted_items owner db.crafts))) [
      | inl e ↦ rw e (a, k)
      | inr e ↦ rw e (
        a,
        λ o.
            let (t, l, c) = k o in
            (
              t,
              l,
              elim (Bool-cases (owner == o)) [
                | inl q ↦ rw q (
                    subst (λ u. cost + spent u db.crafts ≤ total_shards (mine u db.crates))
                      ((eq_iff owner o).0 q) (omega (arith, h, gained-mine owner db.crates)))
                | inr q ↦ rw q (omega (arith, c))
              ],
            ),
      )
    ]

craft_found-IsSound :
    (found : Option RewardItem) (owner item : String) (now : ℕ) (db : Db)
    → IsSound now db
    → IsSound now (craft_found found owner item db).1
unfolding craft_found
craft_found-IsSound none owner item now db s = s
craft_found-IsSound (some it) owner item now db s =
    elim (Bool-cases (has item (opened_items owner db))) [
      | inl e ↦ rw e s
      | inr e ↦
          elim (Bool-cases
            (ltb (gained owner db.crates) (spent owner db.crafts + craft_cost it.rarity))) [
              | inl l ↦ rw (e, l) s
              | inr l ↦
                  rw (e, l)
                    (insert_craft-IsSound owner item (craft_cost it.rarity) now db
                      (ground (arith, l)) s)
            ]
    ]

sign_up-IsSound :
    (found : Option Referral) (username : String) (r : Referral) (now : ℕ) (db : Db)
    → IsSound now db
    → IsSound now (sign_up found username r db)
unfolding sign_up
sign_up-IsSound none username r now db s = s
sign_up-IsSound (some q) username r now db s = s

serve-IsSound :
    (now clock : ℕ) (r : Request) (rs : List (ℕ × Request)) (db : Db)
    → IsTrace clock ((now, r) ∷ rs)
    → IsSound clock db
    → IsSound now (serve now r db) × IsTrace now rs
unfolding serve sync_crates craft_reward
serve-IsSound now clock (syncs owner) rs db (h, t) s = (
  grant-IsSound owner now now (keep (is_candidate owner db.crates) db.users) db
      (IsSound-later clock now db h s),
  t,
)
serve-IsSound now clock (opens owner draw draw') rs db (h, d, t) s =
    (open_crate-IsSound owner now clock draw draw' db h d s, t)
serve-IsSound now clock (crafts_item owner item) rs db (h, t) s =
    (craft_found-IsSound (reward_by_id item) owner item now db (IsSound-later clock now db h s), t)
serve-IsSound now clock (signs_up username r) rs db (h, t) s = (
  sign_up-IsSound (lookup username db.users) username r now db (IsSound-later clock now db h s),
  t,
)
serve-IsSound now clock (verifies username) rs db (h, t) s = (IsSound-later clock now db h s, t)

-- The time of the last request.
unfoldable pub clock_after : ℕ → List (ℕ × Request) → ℕ
clock_after clock [] = clock
clock_after clock ((now, r) ∷ rs) = clock_after now rs

pub serve_all-IsSound :
    (clock : ℕ) (rs : List (ℕ × Request)) (db : Db)
    → IsTrace clock rs
    → IsSound clock db
    → IsSound (clock_after clock rs) (serve_all rs db)
unfolding serve_all clock_after
serve_all-IsSound clock [] db t s = s
serve_all-IsSound clock ((now, r) ∷ rs) db t s =
    let (s', t') = serve-IsSound now clock r rs db t s in
    serve_all-IsSound now rs (serve now r db) t' s'

unfoldable pub no_rows : Db
no_rows = record { users = []; crates = []; crafts = []; next_id = 0 }

no_rows-IsSound : IsSound 0 no_rows
unfolding no_rows mine drops pity_counters streak spent
no_rows-IsSound = (omega arith, λ o. omega arith)

-- However crates are granted, opened and crafted with, from empty tables and with a clock that does
-- not run backwards: among the items that an account's crates gave, in the order of their opening,
-- there are nowhere more than three common ones in a row, and nowhere more than nine in a row that are
-- common or rare.
pub serve_all-IsLucky :
    (rs : List (ℕ × Request)) (owner : String)
    → IsTrace 0 rs
    → IsLucky (rolled_items owner (serve_all rs no_rows))
serve_all-IsLucky rs owner t =
    let db = serve_all rs no_rows in
    let (played, lucky, paid) = (serve_all-IsSound 0 rs no_rows t no_rows-IsSound).1 owner in
    subst IsLucky (sym (rolled_items-drops owner db 0 (clock_after 0 rs) played))
      (IsPaced-IsLucky (map item_of (drops (mine owner db.crates))) lucky)

-- Over the same runs no account has spent more shards than its crates gave it.
pub serve_all-solvent :
    (rs : List (ℕ × Request)) (owner : String)
    → IsTrace 0 rs
    → spent owner (serve_all rs no_rows).crafts ≤ gained owner (serve_all rs no_rows).crates
serve_all-solvent rs owner t =
    let (played, lucky, paid) = (serve_all-IsSound 0 rs no_rows t no_rows-IsSound).1 owner in
    omega (arith, paid, gained-mine owner (serve_all rs no_rows).crates)
