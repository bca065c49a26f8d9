-- ===== src/Rewards/Limits.antt =====
-- How many crates nexus_server/rewards.go grants, over every run of the requests.
use phazechat_world.Prelude.{
  ℕ, ◌+◌, ◌≤◌, ◌<◌, ◌≡◌, refl, sym, subst, inl, inr, Bool, false, not, ◌&&◌, Option, none, some,
  List, [], ◌∷◌, ◌++◌, arith, eq_iff, eq_refl, String, lookup, length, keep, leb, eqb, ◌==◌,
  if◌then◌else◌, Bool-cases, first_row, change_rows,
}
use phazechat_world.Rewards.{RewardItem, reward_by_id}
use phazechat_world.Rewards.Crates.{
  Referral, Crate, Db, is_source, is_today, today, same_ip, insert_crate, grant_one, grant,
  sync_crates, is_unopened, can_open, spend_crate, shards_of, put_reward, open_found, open_crate,
  craft_found, craft_reward, insert_craft, is_candidate, max_crates_per_signup_ip,
  max_crates_per_day,
}
use phazechat_world.Rewards.Runs.{
  Request, syncs, opens, crafts_item, signs_up, verifies, sign_up, serve, serve_all, IsTrace,
  no_rows, clock_after,
}

unfoldable pub crates_from : String → List Crate → ℕ
crates_from username crates = length (keep (λ c. c.source == username) crates)

-- What the limits promise.
abbrev pub IsLimited : ℕ → List Crate → Type 0
IsLimited now crates =
    ((o : String) → today o now crates ≤ max_crates_per_day)
    × ((u : String) → crates_from u crates ≤ 1)

-- Changes of rows that a count does not look at.
keep-change_rows :
    (p q : Crate → Bool) (f : Crate → Crate) (cs : List Crate)
    → ((c : Crate) → p (f c) ≡ p c)
    → length (keep p (change_rows q f cs)) ≡ length (keep p cs)
unfolding change_rows
keep-change_rows p q f [] h = refl
keep-change_rows p q f (c ∷ cs) h = ground (arith, h c, keep-change_rows p q f cs h)

today-later :
    (o : String) (now later : ℕ) (cs : List Crate) → now ≤ later → today o later cs ≤ today o now cs
unfolding today
today-later o now later [] h = omega arith
today-later o now later (c ∷ cs) h = ground (arith, h, today-later o now later cs h)

IsLimited-later :
    (now later : ℕ) (cs : List Crate) → now ≤ later → IsLimited now cs → IsLimited later cs
IsLimited-later now later cs h (t, u) = (λ o. omega (arith, t o, today-later o now later cs h), u)

keep-append_le :
    (p : Crate → Bool) (cs : List Crate) (c : Crate)
    → length (keep p (cs ++ c ∷ [])) ≡ length (keep p cs) + (if p c then 1 else 0)
keep-append_le p [] c = ground arith
keep-append_le p (d ∷ cs) c = ground (arith, keep-append_le p cs c)

not_source : (u : String) (cs : List Crate) → is_source u cs ≡ false → crates_from u cs ≡ 0
unfolding is_source crates_from
not_source u [] h = refl
not_source u (c ∷ cs) h = ground (arith, h, not_source u cs)

append-IsLimited :
    (now : ℕ) (cs : List Crate) (c : Crate)
    → today c.owner now cs < max_crates_per_day
    → is_source c.source cs ≡ false
    → IsLimited now cs
    → IsLimited now (cs ++ c ∷ [])
unfolding today crates_from
append-IsLimited now cs c h s (t, u) = (
  λ o.
      ground
        (arith, t o, h, keep-append_le (is_today o now) cs c, eq_iff c.owner o, eq_refl c.owner),
  λ v. ground (
    arith,
    u v,
    keep-append_le (λ d. d.source == v) cs c,
    eq_iff c.source v,
    not_source c.source cs s,
  ),
)

insert_crate-IsLimited :
    (owner username : String) (now : ℕ) (db : Db)
    → today owner now db.crates < max_crates_per_day
    → IsLimited now db.crates
    → IsLimited now (insert_crate owner username now db).1.crates
unfolding insert_crate
insert_crate-IsLimited owner username now db h k =
    elim (Bool-cases (is_source username db.crates)) [
      | inl e ↦ rw e k
      | inr e ↦ rw e (append-IsLimited now db.crates _ h e k)
    ]

grant_one-IsLimited :
    (owner : String) (now : ℕ) (c : String × Referral) (db : Db)
    → today owner now db.crates < max_crates_per_day
    → IsLimited now db.crates
    → IsLimited now (grant_one owner now c db).1.crates
unfolding grant_one
grant_one-IsLimited owner now (username, r) db h k =
    elim (Bool-cases (
      not (r.signup_ip == "")
      && leb max_crates_per_signup_ip (same_ip owner r.signup_ip db.users db.crates))) [
        | inl e ↦ rw e k
        | inr e ↦ rw e (insert_crate-IsLimited owner username now db h k)
      ]

grant-IsLimited :
    (owner : String) (now : ℕ) (cs : List (String × Referral)) (db : Db)
    → IsLimited now db.crates
    → IsLimited now (grant owner now cs db).1.crates
unfolding grant
grant-IsLimited owner now [] db k = k
grant-IsLimited owner now (c ∷ cs) db k =
    elim (Bool-cases (leb max_crates_per_day (today owner now db.crates))) [
      | inl e ↦ rw e k
      | inr e ↦ rw e (
          grant-IsLimited owner now cs (grant_one owner now c db).1
            (grant_one-IsLimited owner now c db (ground (arith, e)) k))
    ]

spend_crate-IsLimited :
    (id shards at now : ℕ) (it : RewardItem) (db : Db)
    → IsLimited now db.crates
    → IsLimited now (spend_crate id it shards at db).1.crates
unfolding spend_crate today crates_from is_today
spend_crate-IsLimited id shards at now it db (t, u) =
    let q = λ (c : Crate). eqb c.id id && is_unopened c in
    let f = λ (c : Crate). record c { item = some it.id; shards = shards; opened_at = at } in
    (
      λ o. omega (arith, t o, keep-change_rows (is_today o now) q f db.crates (λ c. refl)),
      λ v. omega (arith, u v, keep-change_rows (λ c. c.source == v) q f db.crates (λ c. refl)),
    )

put_reward-IsLimited :
    (id at now : ℕ) (rolled : Option (RewardItem × Bool)) (db : Db)
    → IsLimited now db.crates
    → IsLimited now (put_reward id at rolled db).1.crates
unfolding put_reward
put_reward-IsLimited id at now none db k = k
put_reward-IsLimited id at now (some (it, dupe)) db k =
    elim (Bool-cases (eqb (spend_crate id it (shards_of it dupe) at db).0 1)) [
      | inl e ↦ rw e (spend_crate-IsLimited id (shards_of it dupe) at now it db k)
      | inr e ↦ rw e (spend_crate-IsLimited id (shards_of it dupe) at now it db k)
    ]

open_found-IsLimited :
    (found : Option Crate) (owner : String) (at now : ℕ) (draw draw' : ℕ → ℕ) (db : Db)
    → IsLimited now db.crates
    → IsLimited now (open_found found owner at draw draw' db).1.crates
unfolding open_found
open_found-IsLimited none owner at now draw draw' db k = k
open_found-IsLimited (some c) owner at now draw draw' db k = put_reward-IsLimited c.id at now _ db k

craft_found-crates :
    (found : Option RewardItem) (owner item : String) (db : Db)
    → (craft_found found owner item db).1.crates ≡ db.crates
unfolding craft_found insert_craft
craft_found-crates none owner item db = refl
craft_found-crates (some it) owner item db = ground arith

sign_up-crates :
    (found : Option Referral) (username : String) (r : Referral) (db : Db)
    → (sign_up found username r db).crates ≡ db.crates
unfolding sign_up
sign_up-crates none username r db = refl
sign_up-crates (some q) username r db = refl

serve-IsLimited :
    (now clock : ℕ) (r : Request) (rs : List (ℕ × Request)) (db : Db)
    → IsTrace clock ((now, r) ∷ rs)
    → IsLimited clock db.crates
    → IsLimited now (serve now r db).crates × IsTrace now rs
unfolding serve sync_crates open_crate craft_reward
serve-IsLimited now clock (syncs owner) rs db (h, t) k = (
  grant-IsLimited owner now (keep (is_candidate owner db.crates) db.users) db
      (IsLimited-later clock now db.crates h k),
  t,
)
serve-IsLimited now clock (opens owner draw draw') rs db (h, d, t) k = (
  open_found-IsLimited (first_row (can_open owner) db.crates) owner now now draw draw' db
      (IsLimited-later clock now db.crates h k),
  t,
)
serve-IsLimited now clock (crafts_item owner item) rs db (h, t) k = (
  subst (IsLimited now) (sym (craft_found-crates (reward_by_id item) owner item db))
      (IsLimited-later clock now db.crates h k),
  t,
)
serve-IsLimited now clock (signs_up username r) rs db (h, t) k = (
  subst (IsLimited now) (sym (sign_up-crates (lookup username db.users) username r db))
      (IsLimited-later clock now db.crates h k),
  t,
)
serve-IsLimited now clock (verifies username) rs db (h, t) k =
    (IsLimited-later clock now db.crates h k, t)

serve_all-run :
    (clock : ℕ) (rs : List (ℕ × Request)) (db : Db)
    → IsTrace clock rs
    → IsLimited clock db.crates
    → IsLimited (clock_after clock rs) (serve_all rs db).crates
unfolding serve_all clock_after
serve_all-run clock [] db t k = k
serve_all-run clock ((now, r) ∷ rs) db t k =
    let (k', t') = serve-IsLimited now clock r rs db t k in
    serve_all-run now rs (serve now r db) t' k'

-- From empty tables, whatever crates are granted, opened and crafted with while the clock does not
-- run backwards: no account has more than five crates of the last day, and no account is the source
-- of two crates.
pub serve_all-IsLimited :
    (rs : List (ℕ × Request))
    → IsTrace 0 rs
    → IsLimited (clock_after 0 rs) (serve_all rs no_rows).crates
unfolding no_rows
serve_all-IsLimited rs t =
    serve_all-run 0 rs no_rows t
      (λ o. (unfold today in omega arith), λ u. (unfold crates_from in omega arith))
