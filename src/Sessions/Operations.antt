-- ===== src/Sessions/Operations.antt =====
-- Every operation on the session tables, as one step: nexus_server/session.go, devices.go and the
-- QR and reset functions of main.go.
use phazechat_world.Prelude.{ℕ, Bool, Option, none, some, List, [], ◌∷◌, String}
use phazechat_world.Sessions.Qr.{create_qr_login, approve_qr_login}
use phazechat_world.Sessions.PasswordReset.{create_password_reset, commit_reset}
use phazechat_world.Sessions.Devices.{
  create_device_challenge, verify_device_challenge, resolve_device_challenge,
  purge_expired_device_challenges,
}
use phazechat_world.Sessions.{
  Store, issue_session_token, issue_admin_session_token, mark_session_pending_device,
  revoke_session, revoke_session_by_token, change_password_sessions,
}

pub data Op : Type 0 where
  issues : ℕ → Option String → String → String → Op
  issues_admin : ℕ → Option String → String → Op
  holds : String → Op
  revokes : String → Op
  revokes_own : String → String → Op
  changes_password : String → String → Op
  creates_qr : ℕ → Option String → Op
  approves_qr : ℕ → Option String → String → String → String → Op
  creates_reset : ℕ → Option String → String → Op
  commits_reset : String → String → String → Op
  challenges : ℕ → Option String → String → String → String → String → String → Op
  verifies : ℕ → String → String → Op
  resolves : Bool → ℕ → String → Op
  purges : ℕ → Op

-- What is left where an operation fails before it has changed anything.
abbrev pub or_same : Store → Option (String × Store) → Store
or_same s none = s
or_same s (some (_, s')) = s'

-- `unexpired` and `expired` are SQLite's comparisons of a stored time with CURRENT_TIMESTAMP.
module _ (unexpired expired : ℕ → ℕ → Bool) where
  unfoldable pub step : Op → Store → Store
  step (issues now rand username device) s = (issue_session_token now rand username device s).2
  step (issues_admin now rand username) s = (issue_admin_session_token now rand username s).2
  step (holds token) s = mark_session_pending_device token s
  step (revokes token) s = revoke_session token s
  step (revokes_own token username) s = revoke_session_by_token token username s
  step (changes_password username token) s = change_password_sessions username token s
  step (creates_qr now rand) s = or_same s (create_qr_login now rand s)
  step (approves_qr now rand token username device) s =
      (approve_qr_login unexpired now rand token username device s).1
  step (creates_reset now rand username) s = or_same s (create_password_reset now rand username s)
  step (commits_reset token username password_hash) s = commit_reset token username password_hash s
  step (challenges now rand username device_id token label ip) s =
      (create_device_challenge now rand username device_id token label ip s).1
  step (verifies now token code) s = (verify_device_challenge now token code s).1
  step (resolves approve id username) s = (resolve_device_challenge approve id username s).1
  step (purges now) s = purge_expired_device_challenges expired now s

  unfoldable pub run : List Op → Store → Store
  run [] s = s
  run (op ∷ ops) s = run ops (step op s)
