-- ===== src/AuthTracker.antt =====
-- nexus_server/authtracker.go: the counters of failed sign-ins and of sign-ups, by address and by
-- account. Times are nanoseconds, and the clock is an argument of each operation. `now - first_at`
-- stops at 0 where Go's `Sub` turns negative; both then lie inside the window. The counters do not
-- wrap: an `int` has 63 bits.
pub mod Entries
pub mod Counting
pub mod Calls
pub mod Stale
use phazechat_world.Prelude.{
  ℕ, ◌+◌, ◌-◌, ◌*◌, Bool, false, ◌&&◌, Option, none, some, String, Map, lookup, insert, delete,
  retain, ltb, leb, ◌==◌, if◌then◌else◌,
}

pub record AuthFail : Type 0 where
  pub count : ℕ
  pub first_at : ℕ
  pub last_at : ℕ

pub record AuthFailTracker : Type 0 where
  pub ip_fails : Map AuthFail
  pub user_fails : Map AuthFail
  pub totp_fails : Map AuthFail
  pub signup_counts : Map AuthFail

abbrev pub second : ℕ
second = 1000000000

abbrev pub minute : ℕ
minute = 60 * second

abbrev pub auth_ip_fail_threshold : ℕ
auth_ip_fail_threshold = 5

abbrev pub auth_ip_block_threshold : ℕ
auth_ip_block_threshold = 50

abbrev pub auth_ip_window : ℕ
auth_ip_window = 15 * minute

abbrev pub auth_user_lock_threshold : ℕ
auth_user_lock_threshold = 10

abbrev pub auth_user_window : ℕ
auth_user_window = 30 * minute

abbrev pub totp_max_attempts : ℕ
totp_max_attempts = 5

abbrev pub totp_window : ℕ
totp_window = 10 * minute

abbrev pub signup_ip_max : ℕ
signup_ip_max = 3

abbrev pub signup_ip_window : ℕ
signup_ip_window = 24 * 60 * minute

unfoldable pub first_fail : ℕ → AuthFail
first_fail now = record { count = 1; first_at = now; last_at = now }

-- What the counter of a key becomes: a missing or stale one starts again at 1.
unfoldable pub bumped : ℕ → ℕ → Option AuthFail → AuthFail
unfolding first_fail
bumped window now none = first_fail now
bumped window now (some f) =
    if ltb window (now - f.first_at)
    then first_fail now
    else record f { count = f.count + 1; last_at = now }

unfoldable pub bump : ℕ → ℕ → String → Map AuthFail → Map AuthFail
unfolding bumped
bump window now key m = insert key (bumped window now (lookup key m)) m

unfoldable pub record_fail : ℕ → String → String → AuthFailTracker → AuthFailTracker
unfolding bump
record_fail now ip username t =
    let t' = record t { ip_fails = bump auth_ip_window now ip t.ip_fails } in
    if username == ""
    then t'
    else record t' { user_fails = bump auth_user_window now username t'.user_fails }

unfoldable pub record_success : String → String → AuthFailTracker → AuthFailTracker
record_success ip username t =
    let t' = record t { ip_fails = delete ip t.ip_fails } in
    if username == "" then t' else record t' { user_fails = delete username t'.user_fails }

-- The common body of the four throttle queries: a stale entry is dropped on the way.
unfoldable pub throttled : ℕ → ℕ → ℕ → String → Map AuthFail → Bool × Map AuthFail
throttled window limit now key m = elim (lookup key m) [
  | none ↦ (false, m)
  | some f ↦ if ltb window (now - f.first_at) then (false, delete key m) else (leb limit f.count, m)
]

unfoldable pub is_ip_throttled : ℕ → String → AuthFailTracker → Bool × AuthFailTracker
unfolding throttled
is_ip_throttled now ip t =
    let (answer, m) = throttled auth_ip_window auth_ip_fail_threshold now ip t.ip_fails in
    (answer, record t { ip_fails = m })

unfoldable pub should_auto_block : ℕ → String → AuthFailTracker → Bool
should_auto_block now ip t = elim (lookup ip t.ip_fails) [
  | none ↦ false
  | some f ↦ leb auth_ip_block_threshold f.count && leb (now - f.first_at) auth_ip_window
]

unfoldable pub is_user_locked : ℕ → String → AuthFailTracker → Bool × AuthFailTracker
unfolding throttled
is_user_locked now username t =
    let (answer, m) =
      throttled auth_user_window auth_user_lock_threshold now username t.user_fails in
    (answer, record t { user_fails = m })

unfoldable pub is_totp_throttled : ℕ → String → AuthFailTracker → Bool × AuthFailTracker
unfolding throttled
is_totp_throttled now username t =
    let (answer, m) = throttled totp_window totp_max_attempts now username t.totp_fails in
    (answer, record t { totp_fails = m })

unfoldable pub totp_counted : ℕ → Option AuthFail → AuthFail
unfolding first_fail
totp_counted now none = first_fail now
totp_counted now (some f) =
    if leb (now - f.first_at) totp_window
    then record f { count = f.count + 1; last_at = now }
    else first_fail now

unfoldable pub record_totp_fail : ℕ → String → AuthFailTracker → AuthFailTracker
unfolding totp_counted
record_totp_fail now username t = if username == "" then t else record t {
  totp_fails = insert username (totp_counted now (lookup username t.totp_fails)) t.totp_fails;
}

unfoldable pub record_totp_success : String → AuthFailTracker → AuthFailTracker
record_totp_success username t = record t { totp_fails = delete username t.totp_fails }

unfoldable pub record_signup : ℕ → String → AuthFailTracker → AuthFailTracker
unfolding bump
record_signup now ip t = record t { signup_counts = bump signup_ip_window now ip t.signup_counts }

unfoldable pub is_signup_throttled : ℕ → String → AuthFailTracker → Bool × AuthFailTracker
unfolding throttled
is_signup_throttled now ip t =
    let (answer, m) = throttled signup_ip_window signup_ip_max now ip t.signup_counts in
    (answer, record t { signup_counts = m })

-- Whether the sweeper leaves an entry, seen at `now`.
unfoldable pub fresh : ℕ → ℕ → AuthFail → Bool
fresh window now f = leb (now - f.last_at) window

-- One round of the sweeper.
unfoldable pub sweep_auth_tracker : ℕ → AuthFailTracker → AuthFailTracker
unfolding fresh
sweep_auth_tracker now t = record {
  ip_fails = retain (fresh auth_ip_window now) t.ip_fails;
  user_fails = retain (fresh auth_user_window now) t.user_fails;
  totp_fails = retain (fresh totp_window now) t.totp_fails;
  signup_counts = retain (fresh signup_ip_window now) t.signup_counts;
}
