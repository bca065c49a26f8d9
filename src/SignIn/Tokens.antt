-- ===== src/SignIn/Tokens.antt =====
-- What the token is worth that the message "auth" of nexus_server/ws_handlers.go answers with.
use phazechat_world.Prelude.{
  ℕ, ◌+◌, ◌*◌, ◌≤◌, ◌≡◌, ◌≢◌, inl, inr, refl, sym, subst, ap, ◌∙◌, Bool, true, false, Option, none,
  some, arith, eq_iff, eq_refl, String, lookup, lookup-insert, Bool-cases,
}
use phazechat_world.Sessions.{
  Session, Store, issue_session_token, session_username, session_state, new_session, insert_session,
  hour,
}
use phazechat_world.SignIn.{
  World, Message, Reply, auth_ok, sign_in, auth_second_factor, auth_totp, auth_password, auth_user,
  auth, auto_join_global_space, second_factor,
}
use phazechat_world.AuthTracker.{
  is_ip_throttled, is_user_locked, is_totp_throttled, record_success, record_totp_success,
}
use phazechat_world.Accounts.{authenticate_user}

abbrev is_missing : Option Session → Bool
is_missing none = true
is_missing (some r) = false

-- No session has the random token yet.
abbrev pub is_fresh : Option String → Store → Bool
is_fresh none s = true
is_fresh (some token) s = is_missing (lookup token s.sessions)

issue-session_username :
    (now later : ℕ) (token : Option String) (username device : String) (s : Store)
    → is_fresh token s ≡ true
    → (issue_session_token now token username device s).0 ≢ ""
    → later ≤ now + 30 * 24 * hour
    → session_username later
        (issue_session_token now token username device s).0
        (issue_session_token now token username device s).2
      ≡ username
unfolding issue_session_token insert_session new_session session_username session_state
issue-session_username now later none username device s f n h = absurd (n refl)
issue-session_username now later (some t) username device s f n h = ground (
  arith,
  f,
  n,
  h,
  eq_iff t "",
  eq_refl t,
  lookup-insert t t (new_session username device (now + 30 * 24 * hour)) s.sessions,
)

-- A token that comes with a success stands for the account, at a time.
abbrev IsWorth : ℕ → String → Reply × World → Type 0
IsWorth later username out =
    (u tok : String)
    → out.0 ≡ auth_ok u tok
    → tok ≢ ""
    → (u ≡ username) × (session_username later tok out.1.store ≡ username)

issued-IsWorth :
    (now later : ℕ) (token : Option String) (username device tok : String) (s : Store)
    → is_fresh token s ≡ true
    → (issue_session_token now token username device s).0 ≡ tok
    → tok ≢ ""
    → later ≤ now + 30 * 24 * hour
    → session_username later tok (issue_session_token now token username device s).2 ≡ username
issued-IsWorth now later token username device tok s f e n h =
    subst
      (λ t. session_username later t (issue_session_token now token username device s).2 ≡ username)
      e (issue-session_username now later token username device s f (λ z. n (sym e ∙ z)) h)

-- Joining the global space leaves the sessions alone.
auto_join-store :
    (username : String) (w : World) → (auto_join_global_space username w).store ≡ w.store
unfolding auto_join_global_space
auto_join-store username w = ground arith

module _ (compare : String → String → Bool) (generate : String → Option String)
    (sha256 : String → String) (sha256_hex : String → String)
    (validate : ℕ → String → String → Bool) where
  sign_in-IsWorth :
      (now later : ℕ) (ip : String) (c : ℕ) (token : Option String) (m : Message) (w : World)
      → is_fresh token w.store ≡ true
      → later ≤ now + 30 * 24 * hour
      → IsWorth later m.sender
          (sign_in compare generate sha256 sha256_hex validate now ip c token m w)
  unfolding sign_in
  sign_in-IsWorth now later ip c token m w fr h u tok e n =
      let w1 = record w {
        tracker = record_success ip m.sender (record_totp_success m.sender w.tracker);
      } in
      let w2 = auto_join_global_space m.sender w1 in
      ground (
        arith,
        e,
        issued-IsWorth now later token m.sender m.device_info tok w2.store
            (ap (is_fresh token) (auto_join-store m.sender w1) ∙ fr),
        n,
        h,
      )

  auth_second_factor-IsWorth :
      (now later : ℕ) (ip : String) (c : ℕ) (token : Option String) (m : Message) (w : World)
      → is_fresh token w.store ≡ true
      → later ≤ now + 30 * 24 * hour
      → IsWorth later m.sender
          (auth_second_factor compare generate sha256 sha256_hex validate now ip c token m w)
  unfolding auth_second_factor
  auth_second_factor-IsWorth now later ip c token m w fr h u tok e n =
      let (ok, accounts) =
        second_factor compare generate sha256 sha256_hex validate now m.sender m.totp_code
          w.accounts in
      elim (Bool-cases ok) [
        | inl f ↦ ground (
          arith,
          e,
          f,
          n,
          sign_in-IsWorth now later ip c token m (record w { accounts = accounts }) fr h u tok,
        )
        | inr f ↦ ground (arith, e, f)
      ]

  auth_totp-IsWorth :
      (now later : ℕ) (ip : String) (c : ℕ) (token : Option String) (m : Message) (w : World)
      → is_fresh token w.store ≡ true
      → later ≤ now + 30 * 24 * hour
      → IsWorth later m.sender
          (auth_totp compare generate sha256 sha256_hex validate now ip c token m w)
  unfolding auth_totp
  auth_totp-IsWorth now later ip c token m w fr h u tok e n = ground (
    arith,
    e,
    n,
    auth_second_factor-IsWorth now later ip c token m
        (record w { tracker = (is_totp_throttled now m.sender w.tracker).1 }) fr h u tok,
  )

  auth_password-IsWorth :
      (now later : ℕ) (ip : String) (c : ℕ) (token : Option String) (m : Message) (w : World)
      → is_fresh token w.store ≡ true
      → later ≤ now + 30 * 24 * hour
      → IsWorth later m.sender
          (auth_password compare generate sha256 sha256_hex validate now ip c token m w)
  unfolding auth_password
  auth_password-IsWorth now later ip c token m w fr h u tok e n = ground (
    arith,
    e,
    n,
    auth_totp-IsWorth now later ip c token m
        (record w {
          accounts = (authenticate_user compare generate sha256 m.sender m.body w.accounts).1;
        })
        fr h u tok,
  )

  auth_user-IsWorth :
      (now later : ℕ) (ip : String) (c : ℕ) (token : Option String) (m : Message) (w : World)
      → is_fresh token w.store ≡ true
      → later ≤ now + 30 * 24 * hour
      → IsWorth later m.sender
          (auth_user compare generate sha256 sha256_hex validate now ip c token m w)
  unfolding auth_user
  auth_user-IsWorth now later ip c token m w fr h u tok e n = ground (
    arith,
    e,
    n,
    auth_password-IsWorth now later ip c token m
        (record w { tracker = (is_user_locked now m.sender w.tracker).1 }) fr h u tok,
  )

  -- When "auth" answers with success, it names the account that the client asked for; and if the
  -- random token is not the token of a session already, the token that is sent, where one is,
  -- authenticates this account at once and for 30 days: no device is checked, known or not.
  pub session_username-auth :
      (now later : ℕ) (ip : String) (c : ℕ) (token : Option String) (m : Message) (w : World)
      (u tok : String)
      → is_fresh token w.store ≡ true
      → later ≤ now + 30 * 24 * hour
      → (auth compare generate sha256 sha256_hex validate now ip c token m w).0 ≡ auth_ok u tok
      → tok ≢ ""
      → (u ≡ m.sender)
        × (session_username later tok
              (auth compare generate sha256 sha256_hex validate now ip c token m w).1.store
            ≡ m.sender)
  unfolding auth
  session_username-auth now later ip c token m w u tok fr h e n = ground (
    arith,
    e,
    n,
    auth_user-IsWorth now later ip c token m
        (record w { tracker = (is_ip_throttled now ip w.tracker).1 }) fr h u tok,
  )
