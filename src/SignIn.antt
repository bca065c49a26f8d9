-- ===== src/SignIn.antt =====
-- nexus_server/ws_handlers.go, the messages "auth", "session_auth" and "qr_login_check": how a
-- connection signs in, over the sign-in counters, the accounts, the sessions and the registry. A
-- handler reads the clock once; the pauses it makes, the columns last_ip and last_login_at and what
-- it sends after the answer (presence, waiting messages, contacts) are left out.
pub mod Blocking
pub mod Runs
pub mod NeverBlocks
pub mod Tokens
use phazechat_world.Prelude.{
  ℕ, zero, suc, ◌+◌, ◌-◌, ◌*◌, ◌/◌, ◌%◌, ◌≤◌, ◌<◌, min, max, ◌≡◌, refl, sym, ap, subst, ◌∙◌, ◌≢◌,
  ◌↔◌, ◌⊎◌, inl, inr, Bool, true, false, not, ◌&&◌, ◌||◌, Option, none, some, List, [], ◌∷◌, ◌++◌,
  map, arith, eq_iff, eq_refl, String, Map, lookup, insert, delete, retain, guarded, lookup-insert,
  lookup-delete, lookup-retain, modify, update_all, apply, lookup-modify, lookup-update_all,
  map_laws, length, keep, any, All, length-append, length-keep-le, ltb, leb, eqb, ◌==◌,
  if◌then◌else◌, Bool-cases, Option-cases, trim_space, has, without, including, has-without,
  has-including, is_empty, starts_with,
}
use Prim.Native.String.{◌++◌ as append}
use phazechat_world.AuthTracker.{
  AuthFailTracker, is_ip_throttled, should_auto_block, is_user_locked, is_totp_throttled,
  record_fail, record_success, record_totp_fail, record_totp_success,
}
use phazechat_world.Accounts.{
  Accounts, authenticate_user, user_ban_info, verify_totp, consume_backup_code,
}
use phazechat_world.Sessions.{Store, issue_session_token, session_username, revoke_session}
use phazechat_world.Sessions.Qr.{check_qr_login}
use phazechat_world.Registry.{Server, update_conn, add_client}
use phazechat_world.Spaces.{Spaces, is_server_member}

pub record World : Type 0 where
  pub tracker : AuthFailTracker
  pub accounts : Accounts
  pub store : Store
  pub server : Server
  pub spaces : Spaces
  pub blocked_ips : List String

-- The answer: an error, a pending QR code, or the account and its token.
pub data Reply : Type 0 where
  auth_error : String → String → Reply
  qr_error : String → Reply
  qr_pending : String → Reply
  auth_ok : String → String → Reply

-- What a connection sends to sign in with a password.
pub record Message : Type 0 where
  pub sender : String
  pub body : String
  pub totp_code : String
  pub device_info : String

unfoldable pub block_ip : String → World → World
unfolding including
block_ip ip w = record w { blocked_ips = including ip w.blocked_ips }

-- What each handler does for an address that is throttled.
unfoldable pub auto_block : ℕ → String → World → World
unfolding block_ip
auto_block now ip w = if should_auto_block now ip w.tracker then block_ip ip w else w

unfoldable pub auto_join_global_space : String → World → World
auto_join_global_space username w =
    if username == "" || is_server_member "global" username w.spaces then w else record w {
      spaces = record w.spaces {
        members =
            record { server_id = "global"; username = username; role = "member" }
            ∷ w.spaces.members;
      };
    }

-- The connection becomes one of its user's.
unfoldable pub register_conn : String → ℕ → World → World
unfolding update_conn add_client
register_conn username c w = record w {
  server =
      add_client username c
        (update_conn c (λ k. record k { username = username; status = "Online" }) w.server);
}

unfoldable pub fail : ℕ → String → String → World → World
fail now ip username w = record w { tracker = record_fail now ip username w.tracker }

unfoldable pub suspended : String → String
suspended reason = if reason == "" then "Account suspended" else append "Account suspended: " reason

module _ (compare : String → String → Bool) (generate : String → Option String)
    (sha256 : String → String) (sha256_hex : String → String)
    (validate : ℕ → String → String → Bool) where
  -- `!s.verifyTOTP(…) && !s.consumeBackupCode(…)`, negated.
  unfoldable pub second_factor : ℕ → String → String → Accounts → Bool × Accounts
  second_factor now username c a =
      let (ok, a') = verify_totp validate now username c a in
      if ok then (true, a') else consume_backup_code sha256_hex username c a'

  -- The token is sent whether or not its row was stored.
  unfoldable pub sign_in : ℕ → String → ℕ → Option String → Message → World → Reply × World
  unfolding auto_join_global_space register_conn
  sign_in now ip c token m w =
      let w1 = record w {
        tracker = record_success ip m.sender (record_totp_success m.sender w.tracker);
      } in
      let w2 = auto_join_global_space m.sender w1 in
      let (tok, ok, store) = issue_session_token now token m.sender m.device_info w2.store in
      (auth_ok m.sender tok, register_conn m.sender c (record w2 { store = store }))

  unfoldable pub auth_second_factor :
      ℕ → String → ℕ → Option String → Message → World → Reply × World
  unfolding second_factor sign_in
  auth_second_factor now ip c token m w =
      let (ok, accounts) = second_factor now m.sender m.totp_code w.accounts in
      let w1 = record w { accounts = accounts } in
      if ok then sign_in now ip c token m w1 else (
        auth_error "totp_required" "2FA code required or invalid",
        record w1 { tracker = record_totp_fail now m.sender w1.tracker },
      )

  unfoldable pub auth_totp : ℕ → String → ℕ → Option String → Message → World → Reply × World
  unfolding auth_second_factor
  auth_totp now ip c token m w =
      let (throttled, tracker) = is_totp_throttled now m.sender w.tracker in
      let w1 = record w { tracker = tracker } in
      if throttled
      then (auth_error "totp_required" "Too many 2FA attempts — wait a few minutes", w1)
      else auth_second_factor now ip c token m w1

  unfoldable pub auth_password : ℕ → String → ℕ → Option String → Message → World → Reply × World
  unfolding auth_totp fail suspended
  auth_password now ip c token m w =
      let (ok, accounts) = authenticate_user compare generate sha256 m.sender m.body w.accounts in
      let w1 = record w { accounts = accounts } in
      let (banned, reason) = user_ban_info m.sender w1.accounts in
      if not ok
      then (auth_error "" "Invalid username or password", fail now ip m.sender w1)
      else if banned
      then (auth_error "banned" (suspended reason), w1)
      else auth_totp now ip c token m w1

  unfoldable pub auth_user : ℕ → String → ℕ → Option String → Message → World → Reply × World
  unfolding auth_password
  auth_user now ip c token m w =
      let (locked, tracker) = is_user_locked now m.sender w.tracker in
      let w1 = record w { tracker = tracker } in
      if locked
      then (
        auth_error ""
            "Account temporarily locked due to too many failed attempts. Try again in 30 minutes.",
        w1,
      )
      else auth_password now ip c token m w1

  unfoldable pub auth : ℕ → String → ℕ → Option String → Message → World → Reply × World
  unfolding auth_user auto_block
  auth now ip c token m w =
      let (throttled, tracker) = is_ip_throttled now ip w.tracker in
      let w1 = record w { tracker = tracker } in
      if m.body == ""
      then (auth_error "" "Password required", w)
      else if throttled
      then (auth_error "" "Too many failed attempts. Try again later.", auto_block now ip w1)
      else auth_user now ip c token m w1

unfoldable pub resume : ℕ → String → ℕ → String → String → World → Reply × World
unfolding register_conn suspended auto_join_global_space
resume now ip c token username w =
    let w1 = record w { tracker = record_success ip username w.tracker } in
    let (banned, reason) = user_ban_info username w1.accounts in
    if banned
    then (
      auth_error "banned" (suspended reason),
      record w1 { store = revoke_session token w1.store },
    )
    else (auth_ok username token, register_conn username c (auto_join_global_space username w1))

unfoldable pub session_auth : ℕ → String → ℕ → String → World → Reply × World
unfolding resume fail auto_block
session_auth now ip c token w =
    let (throttled, tracker) = is_ip_throttled now ip w.tracker in
    let w1 = record w { tracker = tracker } in
    let u = session_username now token w1.store in
    if throttled
    then (auth_error "" "Too many failed attempts. Try again later.", auto_block now ip w1)
    else if u == ""
    then (auth_error "" "Session expired, please log in", fail now ip "" w1)
    else resume now ip c token u w1

unfoldable pub qr_login_check : ℕ → String → ℕ → String → World → Reply × World
unfolding register_conn fail auto_block
qr_login_check now ip c token w =
    let (throttled, tracker) = is_ip_throttled now ip w.tracker in
    let w1 = record w { tracker = tracker } in
    let q = check_qr_login now token w1.store in
    if throttled
    then (qr_error "Too many failed attempts. Try again later.", auto_block now ip w1)
    else if not q.approved
    then (qr_pending token, if q.exists then w1 else fail now ip "" w1)
    else (
      auth_ok q.username q.session,
      register_conn q.username c (record w1 { tracker = record_success ip q.username w1.tracker }),
    )
