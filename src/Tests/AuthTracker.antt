-- ===== src/Tests/AuthTracker.antt =====
-- Sign-in counters: nexus_server/authtracker.go.
use phazechat_world.Prelude.{ℕ, ◌*◌, ◌≡◌, refl, true, List, [], ◌∷◌, arith, lookup, insert, leb}
use phazechat_world.AuthTracker.{
  AuthFailTracker, minute, sweep_auth_tracker, is_ip_throttled, is_user_locked, record_fail,
}
use phazechat_world.AuthTracker.Counting.{
  Failure, record_fails, count_ip, count_user, is_ip_throttled-record_fails,
  is_user_locked-record_fails,
}
use phazechat_world.AuthTracker.Calls.{fails, asks_ip, answers, IsTimed}
use phazechat_world.AuthTracker.Stale.{answers-sweep_auth_tracker}

abbrev no_fails : AuthFailTracker
no_fails = record { ip_fails = []; user_fails = []; totp_fails = []; signup_counts = [] }

abbrev fail_at : ℕ → Failure
fail_at t = record { at = t * minute; ip = "10.0.0.1"; username = "alice" }

abbrev five_fails : List Failure
five_fails = fail_at 1 ∷ fail_at 2 ∷ fail_at 3 ∷ fail_at 4 ∷ fail_at 5 ∷ []

five_fails_throttle :
    (is_ip_throttled (6 * minute) "10.0.0.1" (record_fails five_fails no_fails)).0 ≡ true
unfolding is_ip_throttled record_fails record_fail lookup insert
five_fails_throttle = refl

is_ip_throttled-record_fails_example :
    (is_ip_throttled (6 * minute) "10.0.0.1" (record_fails five_fails no_fails)).0
    ≡ leb 5 (count_ip "10.0.0.1" five_fails)
unfolding lookup
is_ip_throttled-record_fails_example =
    is_ip_throttled-record_fails 0 (6 * minute) "10.0.0.1" five_fails no_fails tt (omega arith)
      (omega arith) (omega arith)

is_user_locked-record_fails_example :
    (is_user_locked (6 * minute) "alice" (record_fails five_fails no_fails)).0
    ≡ leb 10 (count_user "alice" five_fails)
unfolding lookup
is_user_locked-record_fails_example =
    is_user_locked-record_fails 0 (6 * minute) "alice" five_fails no_fails (λ e. cc) tt
      (omega arith) (omega arith) (omega arith)

abbrev old_fail : AuthFailTracker
old_fail = record no_fails {
  ip_fails = ("10.0.0.1", record { count = 7; first_at = 0; last_at = minute }) ∷ [];
}

old_fail-IsTimed : IsTimed (20 * minute) old_fail
unfolding lookup
old_fail-IsTimed = record {
  ip_timed = λ key. ground arith;
  user_timed = λ key. tt;
  totp_timed = λ key. tt;
  signup_timed = λ key. tt;
}

answers-sweep_auth_tracker_example :
    answers
      (sweep_auth_tracker (20 * minute) old_fail)
      ((21 * minute, asks_ip "10.0.0.1") ∷ (22 * minute, fails "10.0.0.1" "") ∷ [])
    ≡ answers old_fail ((21 * minute, asks_ip "10.0.0.1") ∷ (22 * minute, fails "10.0.0.1" "") ∷ [])
answers-sweep_auth_tracker_example =
    answers-sweep_auth_tracker (20 * minute) (20 * minute) old_fail
      ((21 * minute, asks_ip "10.0.0.1") ∷ (22 * minute, fails "10.0.0.1" "") ∷ []) (omega arith)
      old_fail-IsTimed (omega arith)
