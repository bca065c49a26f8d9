-- ===== src/AuthTracker/Calls.antt =====
-- nexus_server/authtracker.go as its callers see it: the calls made under the tracker's lock, in
-- their order, and the sweeper among them.
use phazechat_world.Prelude.{ℕ, ◌≤◌, inl, inr, Bool, false, List, [], ◌∷◌, String, ◌==◌, Bool-cases}
use phazechat_world.AuthTracker.Entries.{
  AreTimed, AreTimed-later, bump-AreTimed, delete-AreTimed, throttled-AreTimed, retain-AreTimed,
  totp_bump-AreTimed,
}
use phazechat_world.AuthTracker.{
  AuthFailTracker, auth_ip_window, auth_user_window, totp_window, signup_ip_window, record_fail,
  record_success, is_ip_throttled, should_auto_block, is_user_locked, is_totp_throttled,
  record_totp_fail, record_totp_success, record_signup, is_signup_throttled, sweep_auth_tracker,
  auth_ip_fail_threshold, auth_user_lock_threshold, totp_max_attempts, signup_ip_max,
}

-- One call of the tracker. A round of the sweeper carries the time that it read.
pub data Call : Type 0 where
  fails succeeds : String → String → Call
  asks_ip asks_block asks_user asks_totp fails_totp passes_totp signs_up asks_signup : String → Call
  sweeps : ℕ → Call

-- The call's answer, if it gives one, and the tracker after it.
unfoldable pub step : ℕ → Call → AuthFailTracker → Bool × AuthFailTracker
step now (fails ip username) t = (false, record_fail now ip username t)
step now (succeeds ip username) t = (false, record_success ip username t)
step now (asks_ip ip) t = is_ip_throttled now ip t
step now (asks_block ip) t = (should_auto_block now ip t, t)
step now (asks_user username) t = is_user_locked now username t
step now (asks_totp username) t = is_totp_throttled now username t
step now (fails_totp username) t = (false, record_totp_fail now username t)
step now (passes_totp username) t = (false, record_totp_success username t)
step now (signs_up ip) t = (false, record_signup now ip t)
step now (asks_signup ip) t = is_signup_throttled now ip t
step now (sweeps seen) t = (false, sweep_auth_tracker seen t)

unfoldable pub answers : AuthFailTracker → List (ℕ × Call) → List Bool
answers t [] = []
answers t ((now, c) ∷ cs) = let (answer, t') = step now c t in answer ∷ answers t' cs

abbrev pub IsReadBy : ℕ → Call → Type 0
IsReadBy now (sweeps seen) = seen ≤ now
IsReadBy now _ = Unit {0}

-- The calls follow one another in time, and none comes before `now`.
abbrev pub AreOrdered : ℕ → List (ℕ × Call) → Type 0
AreOrdered now [] = Unit {0}
AreOrdered now ((later, c) ∷ cs) = (now ≤ later) × IsReadBy later c × AreOrdered later cs

pub record IsTimed (now : ℕ) (t : AuthFailTracker) : Type 0 where
  pub ip_timed : AreTimed now t.ip_fails
  pub user_timed : AreTimed now t.user_fails
  pub totp_timed : AreTimed now t.totp_fails
  pub signup_timed : AreTimed now t.signup_counts

pub IsTimed-later :
    {now later : ℕ} {t : AuthFailTracker} → now ≤ later → IsTimed now t → IsTimed later t
IsTimed-later {now} {later} h v = record {
  ip_timed = AreTimed-later now later _ h v.ip_timed;
  user_timed = AreTimed-later now later _ h v.user_timed;
  totp_timed = AreTimed-later now later _ h v.totp_timed;
  signup_timed = AreTimed-later now later _ h v.signup_timed;
}

-- Every call keeps the entries' times in order.
pub step-IsTimed :
    (now : ℕ) (c : Call) (t : AuthFailTracker) → IsTimed now t → IsTimed now (step now c t).1
unfolding step record_fail record_success is_ip_throttled is_user_locked is_totp_throttled
    record_totp_fail record_totp_success record_signup is_signup_throttled sweep_auth_tracker
step-IsTimed now (fails ip username) t v = elim (Bool-cases (username == "")) [
  | inl e ↦ rw e (record {
    ip_timed = bump-AreTimed auth_ip_window now ip t.ip_fails v.ip_timed;
    user_timed = v.user_timed;
    totp_timed = v.totp_timed;
    signup_timed = v.signup_timed;
  })
  | inr e ↦ rw e (record {
    ip_timed = bump-AreTimed auth_ip_window now ip t.ip_fails v.ip_timed;
    user_timed = bump-AreTimed auth_user_window now username t.user_fails v.user_timed;
    totp_timed = v.totp_timed;
    signup_timed = v.signup_timed;
  })
]
step-IsTimed now (succeeds ip username) t v = elim (Bool-cases (username == "")) [
  | inl e ↦ rw e (record {
    ip_timed = delete-AreTimed now ip t.ip_fails v.ip_timed;
    user_timed = v.user_timed;
    totp_timed = v.totp_timed;
    signup_timed = v.signup_timed;
  })
  | inr e ↦ rw e (record {
    ip_timed = delete-AreTimed now ip t.ip_fails v.ip_timed;
    user_timed = delete-AreTimed now username t.user_fails v.user_timed;
    totp_timed = v.totp_timed;
    signup_timed = v.signup_timed;
  })
]
step-IsTimed now (asks_ip ip) t v = record {
  ip_timed = throttled-AreTimed auth_ip_window auth_ip_fail_threshold now ip t.ip_fails v.ip_timed;
  user_timed = v.user_timed;
  totp_timed = v.totp_timed;
  signup_timed = v.signup_timed;
}
step-IsTimed now (asks_block ip) t v = v
step-IsTimed now (asks_user username) t v = record {
  ip_timed = v.ip_timed;
  user_timed =
      throttled-AreTimed auth_user_window auth_user_lock_threshold now username t.user_fails
        v.user_timed;
  totp_timed = v.totp_timed;
  signup_timed = v.signup_timed;
}
step-IsTimed now (asks_totp username) t v = record {
  ip_timed = v.ip_timed;
  user_timed = v.user_timed;
  totp_timed =
      throttled-AreTimed totp_window totp_max_attempts now username t.totp_fails v.totp_timed;
  signup_timed = v.signup_timed;
}
step-IsTimed now (fails_totp username) t v = elim (Bool-cases (username == "")) [
  | inl e ↦ rw e v
  | inr e ↦ rw e (record {
    ip_timed = v.ip_timed;
    user_timed = v.user_timed;
    totp_timed = totp_bump-AreTimed now username t.totp_fails v.totp_timed;
    signup_timed = v.signup_timed;
  })
]
step-IsTimed now (passes_totp username) t v = record {
  ip_timed = v.ip_timed;
  user_timed = v.user_timed;
  totp_timed = delete-AreTimed now username t.totp_fails v.totp_timed;
  signup_timed = v.signup_timed;
}
step-IsTimed now (signs_up ip) t v = record {
  ip_timed = v.ip_timed;
  user_timed = v.user_timed;
  totp_timed = v.totp_timed;
  signup_timed = bump-AreTimed signup_ip_window now ip t.signup_counts v.signup_timed;
}
step-IsTimed now (asks_signup ip) t v = record {
  ip_timed = v.ip_timed;
  user_timed = v.user_timed;
  totp_timed = v.totp_timed;
  signup_timed =
      throttled-AreTimed signup_ip_window signup_ip_max now ip t.signup_counts v.signup_timed;
}
step-IsTimed now (sweeps seen) t v = record {
  ip_timed = retain-AreTimed auth_ip_window seen now t.ip_fails v.ip_timed;
  user_timed = retain-AreTimed auth_user_window seen now t.user_fails v.user_timed;
  totp_timed = retain-AreTimed totp_window seen now t.totp_fails v.totp_timed;
  signup_timed = retain-AreTimed signup_ip_window seen now t.signup_counts v.signup_timed;
}
