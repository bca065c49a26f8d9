-- ===== src/Sessions/Qr.antt =====
-- nexus_server/main.go: sign-in by QR code. A device without a session shows a token, a device with
-- one approves it, and the first one polls for the session. The approval compares the text that the
-- driver stored for a time with SQLite's CURRENT_TIMESTAMP: that comparison is `unexpired`, a
-- parameter, given the time when the code ends and the time now. The poll compares the times in Go.
use phazechat_world.Prelude.{
  ℕ, ◌+◌, ◌*◌, Bool, true, false, not, ◌&&◌, Option, none, some, String, lookup, insert, ltb,
  if◌then◌else◌,
}
use phazechat_world.Sessions.{QrToken, Store, second, issue_session_token}

unfoldable pub create_qr_login : ℕ → Option String → Store → Option (String × Store)
create_qr_login now none s = none
create_qr_login now (some token) s = elim (lookup token s.qr_tokens) [
  | none ↦ some (
    token,
    record s {
      qr_tokens =
          insert token
            (record {
              username = "";
              session_token = "";
              device_info = "";
              approved = false;
              expires_at = now + 300 * second;
            })
            s.qr_tokens;
    },
  )
  | some _ ↦ none
]

module _ (unexpired : ℕ → ℕ → Bool) where
  -- The `WHERE` clause of the approval.
  unfoldable pub is_open : ℕ → QrToken → Bool
  is_open now q = not q.approved && unexpired q.expires_at now

  -- The update, by what the table holds under the token; the flag is `RowsAffected() != 0`.
  unfoldable pub approve_row :
      ℕ → String → String → String → String → Option QrToken → Store → Bool × Store
  unfolding is_open
  approve_row now token username session device none s = (false, s)
  approve_row now token username session device (some q) s =
      if is_open now q
      then (
        true,
        record s {
          qr_tokens =
              insert token
                (record q {
                  username = username;
                  session_token = session;
                  device_info = device;
                  approved = true;
                })
                s.qr_tokens;
        },
      )
      else (false, s)

  -- The session is issued before the code is looked at, and stays if the code is refused.
  unfoldable pub approve_qr_login :
      ℕ → Option String → String → String → String → Store → Bool × Store
  unfolding approve_row
  approve_qr_login now rand token username device s =
      let (session, ok, s') = issue_session_token now rand username device s in
      if not ok
      then (false, s')
      else approve_row now token username session device (lookup token s'.qr_tokens) s'

-- What the poll finds: the account, its session, whether it is approved, and whether the code exists.
pub record QrCheck : Type 0 where
  pub username : String
  pub session : String
  pub approved : Bool
  pub exists : Bool

unfoldable pub check_qr_login : ℕ → String → Store → QrCheck
check_qr_login now token s = elim (lookup token s.qr_tokens) [
  | none ↦ record { username = ""; session = ""; approved = false; exists = false }
  | some q ↦
      if ltb q.expires_at now
      then record { username = ""; session = ""; approved = false; exists = true }
      else record {
        username = q.username;
        session = q.session_token;
        approved = q.approved;
        exists = true;
      }
]
