-- ===== src/AuthTracker/Entries.antt =====
-- nexus_server/authtracker.go, one counter map at a time: which entries can be told apart by a
-- query, and what each operation does to them.
use phazechat_world.Prelude.{
  ℕ, ◌-◌, ◌≤◌, ◌≡◌, refl, sym, ap, ◌∙◌, Bool, false, Option, none, some, arith, eq_iff, String, Map,
  lookup, insert, delete, retain, guarded, lookup-insert, lookup-delete, lookup-retain, leb,
}
use phazechat_world.AuthTracker.{
  AuthFail, totp_counted, totp_window, bumped, bump, throttled, fresh,
}

-- The counter of a key, if its window has not run out.
abbrev pub live : ℕ → ℕ → Option AuthFail → Option AuthFail
live window now = guarded (λ f. leb (now - f.first_at) window)

-- No query at `now` or later tells the two maps apart.
abbrev pub Agree : ℕ → ℕ → Map AuthFail → Map AuthFail → Type 0
Agree window now m n =
    (key : String) → live window now (lookup key m) ≡ live window now (lookup key n)

abbrev pub IsTimed : ℕ → Option AuthFail → Type 0
IsTimed now none = Unit {0}
IsTimed now (some f) = (f.first_at ≤ f.last_at) × (f.last_at ≤ now)

-- Every counter was started before it was last raised, and raised before `now`.
abbrev pub AreTimed : ℕ → Map AuthFail → Type 0
AreTimed now m = (key : String) → IsTimed now (lookup key m)

live-later :
    (window now later : ℕ) (o : Option AuthFail)
    → now ≤ later
    → live window later o ≡ live window later (live window now o)
live-later window now later none h = refl
live-later window now later (some f) h = ground arith

pub Agree-later :
    (window now later : ℕ) (m n : Map AuthFail)
    → now ≤ later
    → Agree window now m n
    → Agree window later m n
Agree-later window now later m n h a key =
    live-later window now later (lookup key m) h
    ∙ ap (live window later) (a key)
    ∙ sym (live-later window now later (lookup key n) h)

bumped-live :
    (window now : ℕ) (o : Option AuthFail)
    → bumped window now o ≡ bumped window now (live window now o)
unfolding bumped
bumped-live window now none = refl
bumped-live window now (some f) = ground arith

bumped_same :
    (window now : ℕ) (o o' : Option AuthFail)
    → live window now o ≡ live window now o'
    → bumped window now o ≡ bumped window now o'
bumped_same window now o o' e =
    bumped-live window now o ∙ ap (bumped window now) e ∙ sym (bumped-live window now o')

pub bump-Agree :
    (window now : ℕ) (key : String) (m n : Map AuthFail)
    → Agree window now m n
    → Agree window now (bump window now key m) (bump window now key n)
unfolding bump
bump-Agree window now key m n a j = ground (
  arith,
  lookup-insert key j (bumped window now (lookup key m)) m,
  lookup-insert key j (bumped window now (lookup key n)) n,
  bumped_same window now (lookup key m) (lookup key n) (a key),
  a j,
)

pub delete-Agree :
    (window now : ℕ) (key : String) (m n : Map AuthFail)
    → Agree window now m n
    → Agree window now (delete key m) (delete key n)
delete-Agree window now key m n a j =
    ground (arith, lookup-delete key j m, lookup-delete key j n, a j)

-- Asking about a key changes nothing that can be seen.
pub throttled-Agree :
    (window limit now : ℕ) (key : String) (m : Map AuthFail)
    → Agree window now (throttled window limit now key m).1 m
unfolding throttled
throttled-Agree window limit now key m j = ground (arith, lookup-delete key j m, eq_iff key j)

answer_of : ℕ → Option AuthFail → Bool
answer_of limit none = false
answer_of limit (some f) = leb limit f.count

throttled_answer :
    (window limit now : ℕ) (key : String) (m : Map AuthFail)
    → (throttled window limit now key m).0 ≡ answer_of limit (live window now (lookup key m))
unfolding throttled answer_of
throttled_answer window limit now key m = ground arith

pub throttled_same :
    (window limit now : ℕ) (key : String) (m n : Map AuthFail)
    → Agree window now m n
    → (throttled window limit now key m).0 ≡ (throttled window limit now key n).0
throttled_same window limit now key m n a =
    throttled_answer window limit now key m
    ∙ ap (answer_of limit) (a key)
    ∙ sym (throttled_answer window limit now key n)

-- A round of the sweeper drops only entries that no query would count. The sweeper reads the
-- clock before it takes the lock, at `seen`.
pub retain-Agree :
    (window seen now : ℕ) (m : Map AuthFail)
    → seen ≤ now
    → AreTimed now m
    → Agree window now (retain (fresh window seen) m) m
unfolding fresh
retain-Agree window seen now m h t key = rw lookup-retain (swept (lookup key m) (t key))
  where
    swept :
        (o : Option AuthFail)
        → IsTimed now o
        → live window now (guarded (λ f. leb (seen - f.last_at) window) o) ≡ live window now o
    swept none p = refl
    swept (some f) p = ground arith

pub AreTimed-later :
    (now later : ℕ) (m : Map AuthFail) → now ≤ later → AreTimed now m → AreTimed later m
AreTimed-later now later m h t key = ground (arith, t key)

pub bump-AreTimed :
    (window now : ℕ) (key : String) (m : Map AuthFail)
    → AreTimed now m
    → AreTimed now (bump window now key m)
unfolding bump bumped
bump-AreTimed window now key m t j =
    ground (arith, lookup-insert key j (bumped window now (lookup key m)) m, t j, t key)

pub delete-AreTimed :
    (now : ℕ) (key : String) (m : Map AuthFail) → AreTimed now m → AreTimed now (delete key m)
delete-AreTimed now key m t j = ground (arith, lookup-delete key j m, t j)

pub throttled-AreTimed :
    (window limit now : ℕ) (key : String) (m : Map AuthFail)
    → AreTimed now m
    → AreTimed now (throttled window limit now key m).1
unfolding throttled
throttled-AreTimed window limit now key m t j = ground (arith, lookup-delete key j m, t j)

pub retain-AreTimed :
    (window seen now : ℕ) (m : Map AuthFail)
    → AreTimed now m
    → AreTimed now (retain (fresh window seen) m)
retain-AreTimed window seen now m t key =
    ground (arith, lookup-retain (fresh window seen) key m, t key)

pub totp_counted-bumped :
    (now : ℕ) (o : Option AuthFail) → totp_counted now o ≡ bumped totp_window now o
unfolding totp_counted bumped
totp_counted-bumped now o = ground arith

-- A wrong code is counted as a failed sign-in is, in its own window.
pub totp_bump_lem :
    (now : ℕ) (key : String) (m : Map AuthFail)
    → insert key (totp_counted now (lookup key m)) m ≡ bump totp_window now key m
unfolding bump
totp_bump_lem now key m = rw (totp_counted-bumped now (lookup key m))

pub totp_bump-AreTimed :
    (now : ℕ) (key : String) (m : Map AuthFail)
    → AreTimed now m
    → AreTimed now (insert key (totp_counted now (lookup key m)) m)
totp_bump-AreTimed now key m t =
    rw (totp_bump_lem now key m) (bump-AreTimed totp_window now key m t)

pub totp_bump-Agree :
    (now : ℕ) (key : String) (m n : Map AuthFail)
    → Agree totp_window now m n
    → Agree totp_window now
        (insert key (totp_counted now (lookup key m)) m)
        (insert key (totp_counted now (lookup key n)) n)
totp_bump-Agree now key m n a =
    rw (totp_bump_lem now key m, totp_bump_lem now key n) (bump-Agree totp_window now key m n a)
