-- ===== src/Rewards/History.antt =====
-- The crates of one owner, in the order of their ids: nexus_server/rewards.go opens them in this
-- order, so that `ORDER BY opened_at, id` is this order too.
use phazechat_world.Prelude.{
  ℕ, ◌+◌, ◌≤◌, ◌≡◌, refl, sym, ap, subst, ◌∙◌, ◌≢◌, ◌⊎◌, inl, inr, true, false, not, some, List, [],
  ◌∷◌, ◌++◌, map, arith, eq_iff, String, keep, All, ◌==◌, first_row, change_first,
}
use phazechat_world.Rewards.{pity_step, pity_loop, pity_counters}
use phazechat_world.Rewards.Crates.{
  Crate, is_unopened, insert_opened, sort_opened, item_of, rolled_items, can_open, is_opened,
  gained, Db,
}

unfoldable pub mine : String → List Crate → List Crate
mine owner crates = keep (λ c. c.owner == owner) crates

-- The opened ones of a list.
unfoldable pub drops : List Crate → List Crate
drops cs = keep (λ c. not (is_unopened c)) cs

abbrev pub Waiting : Crate → Type 0
Waiting c = (is_unopened c ≡ true) × (c.shards ≡ 0)

-- Opened crates, their times between two bounds and in order, and then crates that wait.
abbrev pub Played : ℕ → ℕ → List Crate → Type 0
Played lo now [] = lo ≤ now
Played lo now (c ∷ cs) =
    (lo ≤ now)
    × (((is_unopened c ≡ false) × (lo ≤ c.opened_at) × Played c.opened_at now cs)
        ⊎ (Waiting c × All Waiting cs))

pub Waiting-drops : (cs : List Crate) → All Waiting cs → drops cs ≡ []
unfolding drops
Waiting-drops [] h = refl
Waiting-drops (c ∷ cs) ((w, s), hs) = ground (arith, w, Waiting-drops cs hs)

Waiting-Played : (lo now : ℕ) (cs : List Crate) → lo ≤ now → All Waiting cs → Played lo now cs
Waiting-Played lo now [] h w = h
Waiting-Played lo now (c ∷ cs) h (w, ws) = (h, inr (w, ws))

pub Played-later :
    (lo now later : ℕ) (cs : List Crate) → now ≤ later → Played lo now cs → Played lo later cs
Played-later lo now later [] h t = omega (arith, h, t)
Played-later lo now later (c ∷ cs) h (b, inl (o, l, t)) =
    (omega (arith, h, b), inl (o, l, Played-later c.opened_at now later cs h t))
Played-later lo now later (c ∷ cs) h (b, inr w) = (omega (arith, h, b), inr w)

All-snoc : (cs : List Crate) (c : Crate) → All Waiting cs → Waiting c → All Waiting (cs ++ c ∷ [])
All-snoc [] c h w = (w, tt)
All-snoc (d ∷ cs) c (h, hs) w = (h, All-snoc cs c hs w)

-- A new crate waits behind the others.
pub Played-append :
    (lo now : ℕ) (cs : List Crate) (c : Crate)
    → Waiting c
    → Played lo now cs
    → Played lo now (cs ++ c ∷ [])
Played-append lo now [] c w t = (t, inr (w, tt))
Played-append lo now (d ∷ cs) c w (b, inl (o, l, t)) =
    (b, inl (o, l, Played-append d.opened_at now cs c w t))
Played-append lo now (d ∷ cs) c w (b, inr (v, vs)) = (b, inr (v, All-snoc cs c vs w))

insert_opened-least :
    (c : Crate) (lo now : ℕ) (cs : List Crate)
    → c.opened_at ≤ lo
    → Played lo now cs
    → insert_opened c (drops cs) ≡ c ∷ drops cs
unfolding insert_opened drops
insert_opened-least c lo now [] h t = refl
insert_opened-least c lo now (d ∷ cs) h (b, inl (o, l, t)) = ground (arith, o, l, h)
insert_opened-least c lo now (d ∷ cs) h (b, inr ((w, s), ws)) =
    ground (arith, w, Waiting-drops cs ws)

pub sort_opened-drops :
    (lo now : ℕ) (cs : List Crate) → Played lo now cs → sort_opened (drops cs) ≡ drops cs
unfolding sort_opened drops
sort_opened-drops lo now [] t = refl
sort_opened-drops lo now (c ∷ cs) (b, inl (o, l, t)) = ground (
  arith,
  o,
  sort_opened-drops c.opened_at now cs t,
  insert_opened-least c c.opened_at now cs (omega arith) t,
)
sort_opened-drops lo now (c ∷ cs) (b, inr ((w, s), ws)) = ground (arith, w, Waiting-drops cs ws)

-- Opening the first crate that waits, at a time that is not before the others.
module _ (f : Crate → Crate) (now : ℕ) (unopened : (c : Crate) → is_unopened (f c) ≡ false)
    (stamped : (c : Crate) → (f c).opened_at ≡ now) where
  pub Played-open :
      (lo old : ℕ) (cs : List Crate)
      → old ≤ now
      → Played lo old cs
      → Played lo now (change_first is_unopened f cs)
  unfolding change_first
  Played-open lo old [] h t = omega (arith, h, t)
  Played-open lo old (c ∷ cs) h (b, inl (o, l, t)) =
      rw o (omega (arith, h, b), inl (o, l, Played-open c.opened_at old cs h t))
  Played-open lo old (c ∷ cs) h (b, inr ((w, s), ws)) = rw w (
    omega (arith, h, b),
    inl (
      unopened c,
      omega (arith, stamped c, b, h),
      subst (λ k. Played k now cs) (sym (stamped c)) (Waiting-Played now now cs (omega arith) ws),
    ),
  )

  pub drops-open :
      (lo old : ℕ) (cs : List Crate) (x : Crate)
      → Played lo old cs
      → first_row is_unopened cs ≡ some x
      → drops (change_first is_unopened f cs) ≡ drops cs ++ f x ∷ []
  unfolding change_first first_row drops
  drops-open lo old [] x t e = ground (arith, e)
  drops-open lo old (c ∷ cs) x (b, inl (o, l, t)) e =
      ground (arith, e, o, drops-open c.opened_at old cs x t)
  drops-open lo old (c ∷ cs) x (b, inr ((w, s), ws)) e =
      ground (arith, w, e, unopened c, Waiting-drops cs ws)

-- A crate more after the others is one more round of the loop.
pub pity_counters-append :
    (ids : List String) (id : String)
    → pity_counters (ids ++ id ∷ []) ≡ pity_step (pity_counters ids) id
unfolding pity_counters
pity_counters-append ids id = pity_loop-append (0, 0) ids id
  where
    pity_loop-append :
        (k : ℕ × ℕ) (xs : List String) (x : String)
        → pity_loop k (xs ++ x ∷ []) ≡ pity_step (pity_loop k xs) x
    pity_loop-append k [] x = refl
    pity_loop-append k (y ∷ xs) x = pity_loop-append (pity_step k y) xs x

-- All shards of a list.
unfoldable pub total_shards : List Crate → ℕ
total_shards [] = 0
total_shards (c ∷ cs) = c.shards + total_shards cs

pub total_shards-append :
    (cs : List Crate) (c : Crate) → total_shards (cs ++ c ∷ []) ≡ total_shards cs + c.shards
unfolding total_shards
total_shards-append [] c = omega arith
total_shards-append (d ∷ cs) c = omega (arith, total_shards-append cs c)

pub gained-mine :
    (owner : String) (cs : List Crate) → gained owner cs ≡ total_shards (mine owner cs)
unfolding gained mine total_shards
gained-mine owner [] = refl
gained-mine owner (c ∷ cs) = ground (arith, gained-mine owner cs)

-- Opening a crate takes no shards away.
pub total_shards-open :
    (f : Crate → Crate) (lo now : ℕ) (cs : List Crate)
    → Played lo now cs
    → total_shards cs ≤ total_shards (change_first is_unopened f cs)
unfolding total_shards change_first
total_shards-open f lo now [] t = omega arith
total_shards-open f lo now (c ∷ cs) (b, inl (o, l, t)) =
    ground (arith, o, total_shards-open f c.opened_at now cs t)
total_shards-open f lo now (c ∷ cs) (b, inr ((w, s), ws)) = ground (arith, w, s)

-- The rows of a table that `openCrate` reads and writes, in terms of their owner's.
pub first_row-mine :
    (owner : String) (cs : List Crate)
    → first_row (can_open owner) cs ≡ first_row is_unopened (mine owner cs)
unfolding first_row can_open mine
first_row-mine owner [] = refl
first_row-mine owner (c ∷ cs) = ground (arith, first_row-mine owner cs)

pub change_first-mine :
    (owner : String) (f : Crate → Crate) (cs : List Crate)
    → ((c : Crate) → (f c).owner ≡ c.owner)
    → mine owner (change_first (can_open owner) f cs) ≡ change_first is_unopened f (mine owner cs)
unfolding change_first can_open mine
change_first-mine owner f [] k = refl
change_first-mine owner f (c ∷ cs) k =
    ground
      (arith, k c, change_first-mine owner f cs k, eq_iff c.owner owner, eq_iff (f c).owner owner)

pub change_first-others :
    (owner other : String) (f : Crate → Crate) (cs : List Crate)
    → owner ≢ other
    → ((c : Crate) → (f c).owner ≡ c.owner)
    → mine other (change_first (can_open owner) f cs) ≡ mine other cs
unfolding change_first can_open mine
change_first-others owner other f [] d k = refl
change_first-others owner other f (c ∷ cs) d k = ground (
  arith,
  d,
  k c,
  change_first-others owner other f cs d k,
  eq_iff c.owner owner,
  eq_iff c.owner other,
  eq_iff (f c).owner other,
)

opened-mine : (owner : String) (cs : List Crate) → keep (is_opened owner) cs ≡ drops (mine owner cs)
unfolding drops mine is_opened
opened-mine owner [] = refl
opened-mine owner (c ∷ cs) = ground (arith, opened-mine owner cs)

pub rolled_items-drops :
    (owner : String) (db : Db) (lo now : ℕ)
    → Played lo now (mine owner db.crates)
    → rolled_items owner db ≡ map item_of (drops (mine owner db.crates))
unfolding rolled_items
rolled_items-drops owner db lo now t =
    ap (λ cs. map item_of (sort_opened cs)) (opened-mine owner db.crates)
    ∙ ap (map item_of) (sort_opened-drops lo now (mine owner db.crates) t)
