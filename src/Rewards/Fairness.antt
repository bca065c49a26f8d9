-- ===== src/Rewards/Fairness.antt =====
-- Pity and shards over every run of the requests of nexus_server/rewards.go.
use phazechat_world.Prelude.{
  ℕ, ◌≤◌, ◌≡◌, refl, sym, ap, subst, ◌∙◌, inl, inr, Bool, true, Option, none, some, List, [], ◌∷◌,
  ◌++◌, map, arith, eq_iff, String, eqb, ◌==◌, Bool-cases, first_row, change_first, Ascends,
  Ascends-change_first, change_rows-first,
}
use phazechat_world.Rewards.{RewardItem, pity_counters, roll_reward, floor_of}
use phazechat_world.Rewards.Roll.{IsDraw, IsFair, roll_reward-IsFair}
use phazechat_world.Rewards.Crates.{
  Crate, Db, is_unopened, can_open, item_of, opened_items, rolled_items, spent, spend_crate,
  shards_of, put_reward, open_found, open_crate,
}
use phazechat_world.Rewards.Streaks.{IsPaced, IsPacedNext, IsPaced-append, IsPacedNext-fair}
use phazechat_world.Rewards.History.{
  mine, drops, Played, Played-later, Played-open, drops-open, total_shards, total_shards-open,
  first_row-mine, change_first-mine, change_first-others, rolled_items-drops,
}

-- What holds of the crates of one owner and of what the owner spent.
abbrev pub IsKept : ℕ → List Crate → ℕ → Type 0
IsKept now cs cost = Played 0 now cs × IsPaced (map item_of (drops cs)) × (cost ≤ total_shards cs)

-- The row that an open crate becomes.
unfoldable with_reward : RewardItem → ℕ → ℕ → Crate → Crate
with_reward it shards now c = record c { item = some it.id; shards = shards; opened_at = now }

map-append :
    (cs : List Crate) (c : Crate) → map item_of (cs ++ c ∷ []) ≡ map item_of cs ++ item_of c ∷ []
map-append [] c = refl
map-append (d ∷ cs) c = ap (λ t. item_of d ∷ t) (map-append cs c)

abbrev counters_of : List Crate → ℕ × ℕ
counters_of cs = pity_counters (map item_of (drops cs))

-- The owner's crates once the first one that waits has a reward.
owner_open :
    (it : RewardItem) (shards now old cost : ℕ) (cs : List Crate) (x : Crate)
    → old ≤ now
    → IsKept old cs cost
    → first_row is_unopened cs ≡ some x
    → IsPacedNext (map item_of (drops cs)) it.id
    → IsKept now (change_first is_unopened (with_reward it shards now) cs) cost
unfolding with_reward is_unopened item_of
owner_open it shards now old cost cs x h (t, l, c) e lucky =
    let f = with_reward it shards now in
    let grown =
      ap (map item_of) (drops-open f now (λ d. refl) (λ d. refl) 0 old cs x t e)
      ∙ map-append (drops cs) (f x) in
    (
      Played-open f now (λ d. refl) (λ d. refl) 0 old cs h t,
      subst IsPaced (sym grown) (IsPaced-append (map item_of (drops cs)) (item_of (f x)) lucky),
      omega (arith, c, total_shards-open f 0 old cs t),
    )

-- The same for a later time.
pub IsKept-later :
    (now later cost : ℕ) (cs : List Crate) → now ≤ later → IsKept now cs cost → IsKept later cs cost
IsKept-later now later cost cs h (t, l, c) = (Played-later 0 now later cs h t, l, c)

-- Ids ascend, and every owner's crates are kept.
abbrev pub IsSound : ℕ → Db → Type 0
IsSound now db =
    Ascends (λ c. c.id) 0 db.next_id db.crates
    × ((o : String) → IsKept now (mine o db.crates) (spent o db.crafts))

abbrev crates_after : String → RewardItem → ℕ → ℕ → Db → List Crate
crates_after owner it shards now db =
    change_first (can_open owner) (with_reward it shards now) db.crates

can_open-unopened : (owner : String) (r : Crate) → can_open owner r ≡ true → is_unopened r ≡ true
unfolding can_open
can_open-unopened owner r h = ground (arith, h)

spend_crate-first :
    (owner : String) (it : RewardItem) (shards now clock : ℕ) (db : Db) (x : Crate)
    → IsSound clock db
    → first_row (can_open owner) db.crates ≡ some x
    → (spend_crate x.id it shards now db).1
      ≡ record db { crates = crates_after owner it shards now db }
unfolding spend_crate with_reward
spend_crate-first owner it shards now clock db x (a, k) e =
    ap (λ cs. record db { crates = cs })
      (change_rows-first (λ c. c.id) (can_open owner) is_unopened
        (λ c. record c { item = some it.id; shards = shards; opened_at = now }) 0 db.next_id
        db.crates x (λ r h. can_open-unopened owner r h) a e)

after-IsSound :
    (owner : String) (it : RewardItem) (shards now clock : ℕ) (db : Db) (x : Crate)
    → clock ≤ now
    → IsSound clock db
    → first_row (can_open owner) db.crates ≡ some x
    → IsPacedNext (map item_of (drops (mine owner db.crates))) it.id
    → IsSound now (record db { crates = crates_after owner it shards now db })
after-IsSound owner it shards now clock db x h (a, k) e lucky = (
  Ascends-change_first (λ c. c.id) (can_open owner) (with_reward it shards now) 0 db.next_id
      db.crates (unfold with_reward in λ c. refl) a,
  λ o. elim (Bool-cases (owner == o)) [
    | inl q ↦
        subst (λ u. IsKept now (mine u (crates_after owner it shards now db)) (spent u db.crafts))
          ((eq_iff owner o).0 q)
          (rw
            (change_first-mine owner (with_reward it shards now) db.crates
              (unfold with_reward in λ c. refl))
            (owner_open it shards now clock (spent owner db.crafts) (mine owner db.crates) x h
              (k owner) (sym (first_row-mine owner db.crates) ∙ e) lucky))
    | inr q ↦
        rw
          (change_first-others owner o (with_reward it shards now) db.crates
            (λ p. ground (arith, q, p, eq_iff owner o)) (unfold with_reward in λ c. refl))
          (IsKept-later clock now (spent o db.crafts) (mine o db.crates) h (k o))
  ],
)

put_reward-db :
    (id now : ℕ) (it : RewardItem) (dupe : Bool) (db : Db)
    → (put_reward id now (some (it, dupe)) db).1 ≡ (spend_crate id it (shards_of it dupe) now db).1
unfolding put_reward
put_reward-db id now it dupe db =
    elim (Bool-cases (eqb (spend_crate id it (shards_of it dupe) now db).0 1)) [
      | inl e ↦ ground (arith, e)
      | inr e ↦ ground (arith, e)
    ]

put_reward-IsSound :
    (owner : String) (rolled : Option (RewardItem × Bool)) (own : List String) (now clock : ℕ)
    (db : Db) (x : Crate)
    → clock ≤ now
    → IsSound clock db
    → first_row (can_open owner) db.crates ≡ some x
    → (let k = counters_of (mine owner db.crates) in IsFair own (floor_of k.0 k.1) rolled)
    → IsSound now (put_reward x.id now rolled db).1
put_reward-IsSound owner none own now clock db x h s e fair = absurd fair
put_reward-IsSound owner (some (it, dupe)) own now clock db x h (a, k) e fair =
    let (l, luck, c) = k owner in
    subst (IsSound now)
      (sym (
        put_reward-db x.id now it dupe db
        ∙ spend_crate-first owner it (shards_of it dupe) now clock db x (a, k) e))
      (after-IsSound owner it (shards_of it dupe) now clock db x h (a, k) e
        (IsPacedNext-fair (map item_of (drops (mine owner db.crates))) own it dupe luck fair))

-- At a later time.
pub IsSound-later : (now later : ℕ) (db : Db) → now ≤ later → IsSound now db → IsSound later db
IsSound-later now later db h (a, k) =
    (a, λ o. IsKept-later now later (spent o db.crafts) (mine o db.crates) h (k o))

open_found-IsSound :
    (found : Option Crate) (owner : String) (now clock : ℕ) (draw draw' : ℕ → ℕ) (db : Db)
    → clock ≤ now
    → IsDraw draw'
    → IsSound clock db
    → first_row (can_open owner) db.crates ≡ found
    → IsSound now (open_found found owner now draw draw' db).1
unfolding open_found
open_found-IsSound none owner now clock draw draw' db h d s e = IsSound-later clock now db h s
open_found-IsSound (some x) owner now clock draw draw' db h d (a, k) e =
    let t = (k owner).0 in
    let counters = pity_counters (rolled_items owner db) in
    put_reward-IsSound owner (roll_reward (opened_items owner db) counters.0 counters.1 draw draw')
      (opened_items owner db) now clock db x h (a, k) e
      (subst
        (λ ids.
          let c = pity_counters ids in
          IsFair (opened_items owner db) (floor_of c.0 c.1)
            (roll_reward (opened_items owner db) counters.0 counters.1 draw draw'))
        (rolled_items-drops owner db 0 clock t)
        (roll_reward-IsFair (opened_items owner db) counters.0 counters.1 draw draw' d))

-- Opening a crate.
pub open_crate-IsSound :
    (owner : String) (now clock : ℕ) (draw draw' : ℕ → ℕ) (db : Db)
    → clock ≤ now
    → IsDraw draw'
    → IsSound clock db
    → IsSound now (open_crate owner now draw draw' db).1
unfolding open_crate
open_crate-IsSound owner now clock draw draw' db h d s =
    open_found-IsSound (first_row (can_open owner) db.crates) owner now clock draw draw' db h d s
      refl
