-- ===== src/AuthTracker/Counting.antt =====
-- nexus_server/authtracker.go: what the counters count.
use phazechat_world.Prelude.{
  ℕ, suc, ◌+◌, ◌-◌, ◌≤◌, ◌<◌, ◌≡◌, refl, subst, ◌≢◌, ◌⊎◌, inl, inr, Option, none, some, List, [],
  ◌∷◌, arith, eq_iff, String, Map, lookup, lookup-insert, leb, ◌==◌, if◌then◌else◌, Bool-cases,
}
use phazechat_world.AuthTracker.{
  AuthFail, AuthFailTracker, auth_ip_window, auth_user_window, auth_ip_fail_threshold,
  auth_user_lock_threshold, bumped, bump, throttled, record_fail, is_ip_throttled, is_user_locked,
}

-- A failed sign-in: when, from which address, for which account.
pub record Failure : Type 0 where
  pub at : ℕ
  pub ip : String
  pub username : String

unfoldable pub record_fails : List Failure → AuthFailTracker → AuthFailTracker
record_fails [] t = t
record_fails (f ∷ fs) t = record_fails fs (record_fail f.at f.ip f.username t)

unfoldable pub count_ip : String → List Failure → ℕ
count_ip ip [] = 0
count_ip ip (f ∷ fs) = (if f.ip == ip then 1 else 0) + count_ip ip fs

unfoldable pub count_user : String → List Failure → ℕ
count_user username [] = 0
count_user username (f ∷ fs) = (if f.username == username then 1 else 0) + count_user username fs

-- Every failure lies in the window that starts at `start`.
abbrev pub AreWithin : ℕ → ℕ → List Failure → Type 0
AreWithin window start [] = Unit {0}
AreWithin window start (f ∷ fs) =
    (start ≤ f.at) × (f.at ≤ start + window) × AreWithin window start fs

-- The entry has counted `n` failures since `start`.
abbrev CountIs : ℕ → ℕ → ℕ → Option AuthFail → Type 0
CountIs window start n none = n ≡ 0
CountIs window start n (some f) =
    ((n ≡ 0) × (window < start - f.first_at)) ⊎ ((f.count ≡ n) × (start ≤ f.first_at))

-- No counter of the key is running at `start`.
abbrev pub IsIdle : ℕ → ℕ → Option AuthFail → Type 0
IsIdle window start none = Unit {0}
IsIdle window start (some f) = window < start - f.first_at

CountIs-bumped :
    (window start n now : ℕ) (o : Option AuthFail)
    → start ≤ now
    → now ≤ start + window
    → CountIs window start n o
    → CountIs window start (suc n) (some (bumped window now o))
unfolding bumped
CountIs-bumped window start n now none h k c = inr (omega arith, h)
CountIs-bumped window start n now (some f) h k c = ground arith

CountIs-answer :
    (window limit start n now : ℕ) (key : String) (m : Map AuthFail)
    → 0 < limit
    → start ≤ now
    → now ≤ start + window
    → CountIs window start n (lookup key m)
    → (throttled window limit now key m).0 ≡ leb limit n
unfolding throttled
CountIs-answer window limit start n now key m p h k c = ground arith

CountIs-idle :
    (window start : ℕ) (o : Option AuthFail) → IsIdle window start o → CountIs window start 0 o
CountIs-idle window start none h = refl
CountIs-idle window start (some f) h = inl (refl, h)

record_fail_ip :
    (now : ℕ) (ip username key : String) (t : AuthFailTracker)
    → lookup key (record_fail now ip username t).ip_fails ≡ (
        if ip == key
        then some (bumped auth_ip_window now (lookup ip t.ip_fails))
        else lookup key t.ip_fails)
unfolding record_fail bump
record_fail_ip now ip username key t =
    ground
      (arith, lookup-insert ip key (bumped auth_ip_window now (lookup ip t.ip_fails)) t.ip_fails)

record_fail_user :
    (now : ℕ) (ip username key : String) (t : AuthFailTracker)
    → key ≢ ""
    → lookup key (record_fail now ip username t).user_fails ≡ (
        if username == key
        then some (bumped auth_user_window now (lookup username t.user_fails))
        else lookup key t.user_fails)
unfolding record_fail bump
record_fail_user now ip username key t ne = ground (
  arith,
  eq_iff username "",
  eq_iff username key,
  lookup-insert username key (bumped auth_user_window now (lookup username t.user_fails))
      t.user_fails,
)

-- One failure, seen by the counter of one key.
record_fail_ip-CountIs :
    (start n now : ℕ) (ip username key : String) (t : AuthFailTracker)
    → start ≤ now
    → now ≤ start + auth_ip_window
    → CountIs auth_ip_window start n (lookup key t.ip_fails)
    → CountIs auth_ip_window start
        ((if ip == key then 1 else 0) + n)
        (lookup key (record_fail now ip username t).ip_fails)
record_fail_ip-CountIs start n now ip username key t h k c =
    rw (record_fail_ip now ip username key t) (elim (Bool-cases (ip == key)) [
      | inl e ↦ rw e (
          rw ((eq_iff ip key).0 e) (
            subst
              (λ i.
                CountIs auth_ip_window start i
                  (some (bumped auth_ip_window now (lookup key t.ip_fails))))
              (omega arith)
              (CountIs-bumped auth_ip_window start n now (lookup key t.ip_fails) h k c)))
      | inr e ↦
          rw e (subst (λ i. CountIs auth_ip_window start i (lookup key t.ip_fails)) (omega arith) c)
    ])

record_fail_user-CountIs :
    (start n now : ℕ) (ip username key : String) (t : AuthFailTracker)
    → key ≢ ""
    → start ≤ now
    → now ≤ start + auth_user_window
    → CountIs auth_user_window start n (lookup key t.user_fails)
    → CountIs auth_user_window start
        ((if username == key then 1 else 0) + n)
        (lookup key (record_fail now ip username t).user_fails)
record_fail_user-CountIs start n now ip username key t ne h k c =
    rw (record_fail_user now ip username key t ne) (elim (Bool-cases (username == key)) [
      | inl e ↦ rw e (
          rw ((eq_iff username key).0 e) (
            subst
              (λ i.
                CountIs auth_user_window start i
                  (some (bumped auth_user_window now (lookup key t.user_fails))))
              (omega arith)
              (CountIs-bumped auth_user_window start n now (lookup key t.user_fails) h k c)))
      | inr e ↦
          rw e (
            subst (λ i. CountIs auth_user_window start i (lookup key t.user_fails)) (omega arith) c)
    ])

count_ip-CountIs :
    (start n : ℕ) (ip : String) (fs : List Failure) (t : AuthFailTracker)
    → AreWithin auth_ip_window start fs
    → CountIs auth_ip_window start n (lookup ip t.ip_fails)
    → CountIs auth_ip_window start (count_ip ip fs + n) (lookup ip (record_fails fs t).ip_fails)
unfolding record_fails count_ip
count_ip-CountIs start n ip [] t w c =
    subst (λ k. CountIs auth_ip_window start k (lookup ip t.ip_fails)) (omega arith) c
count_ip-CountIs start n ip (f ∷ fs) t w c =
    subst
      (λ k.
        CountIs auth_ip_window start k
          (lookup ip (record_fails fs (record_fail f.at f.ip f.username t)).ip_fails))
      (omega arith)
      (count_ip-CountIs start ((if f.ip == ip then 1 else 0) + n) ip fs
        (record_fail f.at f.ip f.username t) w.2
        (record_fail_ip-CountIs start n f.at f.ip f.username ip t w.0 w.1 c))

count_user-CountIs :
    (start n : ℕ) (username : String) (fs : List Failure) (t : AuthFailTracker)
    → username ≢ ""
    → AreWithin auth_user_window start fs
    → CountIs auth_user_window start n (lookup username t.user_fails)
    → CountIs auth_user_window start
        (count_user username fs + n)
        (lookup username (record_fails fs t).user_fails)
unfolding record_fails count_user
count_user-CountIs start n username [] t ne w c =
    subst (λ k. CountIs auth_user_window start k (lookup username t.user_fails)) (omega arith) c
count_user-CountIs start n username (f ∷ fs) t ne w c =
    subst
      (λ k.
        CountIs auth_user_window start k
          (lookup username (record_fails fs (record_fail f.at f.ip f.username t)).user_fails))
      (omega arith)
      (count_user-CountIs start ((if f.username == username then 1 else 0) + n) username fs
        (record_fail f.at f.ip f.username t) ne w.2
        (record_fail_user-CountIs start n f.at f.ip f.username username t ne w.0 w.1 c))

-- If no counter of an address runs at `start`, then after any failures within 15 minutes of
-- `start` the address is throttled within that window exactly when at least five of
-- them came from it, whatever other addresses and accounts they name.
pub is_ip_throttled-record_fails :
    (start now : ℕ) (ip : String) (fs : List Failure) (t : AuthFailTracker)
    → IsIdle auth_ip_window start (lookup ip t.ip_fails)
    → AreWithin auth_ip_window start fs
    → start ≤ now
    → now ≤ start + auth_ip_window
    → (is_ip_throttled now ip (record_fails fs t)).0 ≡ leb 5 (count_ip ip fs)
unfolding is_ip_throttled
is_ip_throttled-record_fails start now ip fs t i w h k =
    CountIs-answer auth_ip_window auth_ip_fail_threshold start (count_ip ip fs) now ip
      (record_fails fs t).ip_fails (omega arith) h k
      (subst (λ n. CountIs auth_ip_window start n (lookup ip (record_fails fs t).ip_fails))
        (omega arith)
        (count_ip-CountIs start 0 ip fs t w
          (CountIs-idle auth_ip_window start (lookup ip t.ip_fails) i)))

-- If no counter of an account runs at `start`, then after any failures within 30 minutes of
-- `start` the account is locked within that window exactly when at least ten of
-- them name it, from whatever addresses.
pub is_user_locked-record_fails :
    (start now : ℕ) (username : String) (fs : List Failure) (t : AuthFailTracker)
    → username ≢ ""
    → IsIdle auth_user_window start (lookup username t.user_fails)
    → AreWithin auth_user_window start fs
    → start ≤ now
    → now ≤ start + auth_user_window
    → (is_user_locked now username (record_fails fs t)).0 ≡ leb 10 (count_user username fs)
unfolding is_user_locked
is_user_locked-record_fails start now username fs t ne i w h k =
    CountIs-answer auth_user_window auth_user_lock_threshold start (count_user username fs) now
      username (record_fails fs t).user_fails (omega arith) h k
      (subst
        (λ n. CountIs auth_user_window start n (lookup username (record_fails fs t).user_fails))
        (omega arith)
        (count_user-CountIs start 0 username fs t ne w
          (CountIs-idle auth_user_window start (lookup username t.user_fails) i)))
