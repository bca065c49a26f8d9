-- ===== src/Sessions/Row.antt =====
-- nexus_server/session.go: what a token authenticates, read off its row.
use phazechat_world.Prelude.{
  ℕ, ◌≡◌, ◌||◌, Option, none, some, arith, String, lookup, ltb, ◌==◌, if◌then◌else◌,
}
use phazechat_world.Sessions.{Session, Store, session_state, session_username}

unfoldable pub session_of : ℕ → String → Option Session → String
session_of now token none = ""
session_of now token (some r) =
    if token == "" || r.revoked || ltb r.expires_at now || r.pending_device then "" else r.username

pub session_username_of :
    (now : ℕ) (token : String) (s : Store)
    → session_username now token s ≡ session_of now token (lookup token s.sessions)
unfolding session_username session_state session_of
session_username_of now token s = ground arith
