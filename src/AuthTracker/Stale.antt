-- ===== src/AuthTracker/Stale.antt =====
-- nexus_server/authtracker.go: entries whose window has run out, which queries and the sweeper
-- drop at times of their own.
use phazechat_world.Prelude.{
  ℕ, ◌≤◌, ◌≡◌, refl, sym, ap, ◌∙◌, inl, inr, Bool, false, Option, none, some, List, [], ◌∷◌, arith,
  String, Map, lookup, retain, leb, ◌==◌, Bool-cases,
}
use phazechat_world.AuthTracker.Entries.{
  Agree, AreTimed, Agree-later, bump-Agree, delete-Agree, throttled-Agree, throttled_same,
  retain-Agree, totp_bump-Agree, live,
}
use phazechat_world.AuthTracker.{
  AuthFail, AuthFailTracker, auth_ip_window, auth_user_window, totp_window, signup_ip_window,
  record_fail, record_success, throttled, is_ip_throttled, should_auto_block, is_user_locked,
  is_totp_throttled, record_totp_fail, record_totp_success, record_signup, is_signup_throttled,
  sweep_auth_tracker, fresh, auth_ip_fail_threshold, auth_ip_block_threshold,
  auth_user_lock_threshold, totp_max_attempts, signup_ip_max,
}
use phazechat_world.AuthTracker.Calls.{
  Call, fails, succeeds, asks_ip, asks_block, asks_user, asks_totp, fails_totp, passes_totp,
  signs_up, asks_signup, sweeps, step, answers, IsReadBy, AreOrdered, IsTimed, IsTimed-later,
  step-IsTimed,
}

-- No call at `now` or later tells the two trackers apart.
pub record SameView (now : ℕ) (t u : AuthFailTracker) : Type 0 where
  pub ip_same : Agree auth_ip_window now t.ip_fails u.ip_fails
  pub user_same : Agree auth_user_window now t.user_fails u.user_fails
  pub totp_same : Agree totp_window now t.totp_fails u.totp_fails
  pub signup_same : Agree signup_ip_window now t.signup_counts u.signup_counts

SameView-later :
    {now later : ℕ} {t u : AuthFailTracker} → now ≤ later → SameView now t u → SameView later t u
SameView-later {now} {later} h v = record {
  ip_same = Agree-later _ now later _ _ h v.ip_same;
  user_same = Agree-later _ now later _ _ h v.user_same;
  totp_same = Agree-later _ now later _ _ h v.totp_same;
  signup_same = Agree-later _ now later _ _ h v.signup_same;
}

throttled-Agree_both :
    (window limit now : ℕ) (key : String) (m n : Map AuthFail)
    → Agree window now m n
    → Agree window now (throttled window limit now key m).1 (throttled window limit now key n).1
throttled-Agree_both window limit now key m n a j =
    throttled-Agree window limit now key m j ∙ a j ∙ sym (throttled-Agree window limit now key n j)

retain-Agree_both :
    (window seen now : ℕ) (m n : Map AuthFail)
    → seen ≤ now
    → AreTimed now m
    → AreTimed now n
    → Agree window now m n
    → Agree window now (retain (fresh window seen) m) (retain (fresh window seen) n)
retain-Agree_both window seen now m n h t u a j =
    retain-Agree window seen now m h t j ∙ a j ∙ sym (retain-Agree window seen now n h u j)

block_of : Option AuthFail → Bool
block_of none = false
block_of (some f) = leb auth_ip_block_threshold f.count

should_auto_block-live :
    (now : ℕ) (ip : String) (t : AuthFailTracker)
    → should_auto_block now ip t ≡ block_of (live auth_ip_window now (lookup ip t.ip_fails))
unfolding should_auto_block block_of
should_auto_block-live now ip t = ground arith

should_auto_block_same :
    (now : ℕ) (ip : String) (t u : AuthFailTracker)
    → SameView now t u
    → should_auto_block now ip t ≡ should_auto_block now ip u
should_auto_block_same now ip t u v =
    should_auto_block-live now ip t
    ∙ ap block_of (v.ip_same ip)
    ∙ sym (should_auto_block-live now ip u)

step-SameView :
    (now : ℕ) (c : Call) (t u : AuthFailTracker)
    → IsReadBy now c
    → IsTimed now t
    → IsTimed now u
    → SameView now t u
    → ((step now c t).0 ≡ (step now c u).0) × SameView now (step now c t).1 (step now c u).1
unfolding step record_fail record_success is_ip_throttled is_user_locked is_totp_throttled
    record_totp_fail record_totp_success record_signup is_signup_throttled sweep_auth_tracker
step-SameView now (fails ip username) t u r p q v = elim (Bool-cases (username == "")) [
  | inl e ↦ rw e (
    refl,
    record {
      ip_same = bump-Agree auth_ip_window now ip t.ip_fails u.ip_fails v.ip_same;
      user_same = v.user_same;
      totp_same = v.totp_same;
      signup_same = v.signup_same;
    },
  )
  | inr e ↦ rw e (
    refl,
    record {
      ip_same = bump-Agree auth_ip_window now ip t.ip_fails u.ip_fails v.ip_same;
      user_same = bump-Agree auth_user_window now username t.user_fails u.user_fails v.user_same;
      totp_same = v.totp_same;
      signup_same = v.signup_same;
    },
  )
]
step-SameView now (succeeds ip username) t u r p q v = elim (Bool-cases (username == "")) [
  | inl e ↦ rw e (
    refl,
    record {
      ip_same = delete-Agree auth_ip_window now ip t.ip_fails u.ip_fails v.ip_same;
      user_same = v.user_same;
      totp_same = v.totp_same;
      signup_same = v.signup_same;
    },
  )
  | inr e ↦ rw e (
    refl,
    record {
      ip_same = delete-Agree auth_ip_window now ip t.ip_fails u.ip_fails v.ip_same;
      user_same = delete-Agree auth_user_window now username t.user_fails u.user_fails v.user_same;
      totp_same = v.totp_same;
      signup_same = v.signup_same;
    },
  )
]
step-SameView now (asks_ip ip) t u r p q v = (
  throttled_same auth_ip_window auth_ip_fail_threshold now ip t.ip_fails u.ip_fails v.ip_same,
  record {
    ip_same =
        throttled-Agree_both auth_ip_window auth_ip_fail_threshold now ip t.ip_fails u.ip_fails
          v.ip_same;
    user_same = v.user_same;
    totp_same = v.totp_same;
    signup_same = v.signup_same;
  },
)
step-SameView now (asks_block ip) t u r p q v = (should_auto_block_same now ip t u v, v)
step-SameView now (asks_user username) t u r p q v = (
  throttled_same auth_user_window auth_user_lock_threshold now username t.user_fails u.user_fails
      v.user_same,
  record {
    ip_same = v.ip_same;
    user_same =
        throttled-Agree_both auth_user_window auth_user_lock_threshold now username t.user_fails
          u.user_fails v.user_same;
    totp_same = v.totp_same;
    signup_same = v.signup_same;
  },
)
step-SameView now (asks_totp username) t u r p q v = (
  throttled_same totp_window totp_max_attempts now username t.totp_fails u.totp_fails v.totp_same,
  record {
    ip_same = v.ip_same;
    user_same = v.user_same;
    totp_same =
        throttled-Agree_both totp_window totp_max_attempts now username t.totp_fails u.totp_fails
          v.totp_same;
    signup_same = v.signup_same;
  },
)
step-SameView now (fails_totp username) t u r p q v = elim (Bool-cases (username == "")) [
  | inl e ↦ rw e (refl, v)
  | inr e ↦ rw e (
    refl,
    record {
      ip_same = v.ip_same;
      user_same = v.user_same;
      totp_same = totp_bump-Agree now username t.totp_fails u.totp_fails v.totp_same;
      signup_same = v.signup_same;
    },
  )
]
step-SameView now (passes_totp username) t u r p q v = (
  refl,
  record {
    ip_same = v.ip_same;
    user_same = v.user_same;
    totp_same = delete-Agree totp_window now username t.totp_fails u.totp_fails v.totp_same;
    signup_same = v.signup_same;
  },
)
step-SameView now (signs_up ip) t u r p q v = (
  refl,
  record {
    ip_same = v.ip_same;
    user_same = v.user_same;
    totp_same = v.totp_same;
    signup_same = bump-Agree signup_ip_window now ip t.signup_counts u.signup_counts v.signup_same;
  },
)
step-SameView now (asks_signup ip) t u r p q v = (
  throttled_same signup_ip_window signup_ip_max now ip t.signup_counts u.signup_counts
      v.signup_same,
  record {
    ip_same = v.ip_same;
    user_same = v.user_same;
    totp_same = v.totp_same;
    signup_same =
        throttled-Agree_both signup_ip_window signup_ip_max now ip t.signup_counts u.signup_counts
          v.signup_same;
  },
)
step-SameView now (sweeps seen) t u r p q v = (
  refl,
  record {
    ip_same =
        retain-Agree_both auth_ip_window seen now t.ip_fails u.ip_fails r p.ip_timed q.ip_timed
          v.ip_same;
    user_same =
        retain-Agree_both auth_user_window seen now t.user_fails u.user_fails r p.user_timed
          q.user_timed v.user_same;
    totp_same =
        retain-Agree_both totp_window seen now t.totp_fails u.totp_fails r p.totp_timed q.totp_timed
          v.totp_same;
    signup_same =
        retain-Agree_both signup_ip_window seen now t.signup_counts u.signup_counts r p.signup_timed
          q.signup_timed v.signup_same;
  },
)

answers-SameView :
    (now : ℕ) (cs : List (ℕ × Call)) (t u : AuthFailTracker)
    → AreOrdered now cs
    → IsTimed now t
    → IsTimed now u
    → SameView now t u
    → answers t cs ≡ answers u cs
unfolding answers
answers-SameView now [] t u o p q v = refl
answers-SameView now ((later, c) ∷ cs) t u o p q v =
    let p' = IsTimed-later o.0 p in
    let q' = IsTimed-later o.0 q in
    let (same, v') = step-SameView later c t u o.1 p' q' (SameView-later o.0 v) in
    cc (
      same,
      answers-SameView later cs (step later c t).1 (step later c u).1 o.2
          (step-IsTimed later c t p') (step-IsTimed later c u q') v',
    )

sweep-SameView :
    (seen now : ℕ) (t : AuthFailTracker)
    → seen ≤ now
    → IsTimed now t
    → SameView now (sweep_auth_tracker seen t) t
unfolding sweep_auth_tracker
sweep-SameView seen now t h p = record {
  ip_same = retain-Agree auth_ip_window seen now t.ip_fails h p.ip_timed;
  user_same = retain-Agree auth_user_window seen now t.user_fails h p.user_timed;
  totp_same = retain-Agree totp_window seen now t.totp_fails h p.totp_timed;
  signup_same = retain-Agree signup_ip_window seen now t.signup_counts h p.signup_timed;
}

-- A round of the sweeper at any moment, with a clock reading no later than that moment, changes no
-- answer of any later calls of the tracker (other rounds of the sweeper among them), provided
-- that the entries' times lie in order and the calls follow one another in time.
pub answers-sweep_auth_tracker :
    (seen now : ℕ) (t : AuthFailTracker) (cs : List (ℕ × Call))
    → seen ≤ now
    → IsTimed now t
    → AreOrdered now cs
    → answers (sweep_auth_tracker seen t) cs ≡ answers t cs
unfolding step
answers-sweep_auth_tracker seen now t cs h p o =
    answers-SameView now cs (sweep_auth_tracker seen t) t o (step-IsTimed now (sweeps seen) t p) p
      (sweep-SameView seen now t h p)
