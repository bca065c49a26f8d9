-- ===== src/Sessions.antt =====
-- nexus_server/session.go: the table `session_tokens`, and the tables beside it that can open,
-- hold or close a session. A database call fails only where a key is taken or a row is missing.
-- Times are nanoseconds. `rand` is the result of `randHex`, whose bytes come from the system.
pub mod Qr
pub mod PasswordReset
pub mod Devices
pub mod Operations
pub mod Release
pub mod Changes
pub mod Lifetime
pub mod Guesses
pub mod Row
pub mod Spent
pub mod Once
pub mod QrOnce
use mathlib.Core.Option
use phazechat_world.Prelude.{
  ℕ, zero, suc, ◌+◌, ◌-◌, ◌*◌, ◌/◌, ◌%◌, ◌≤◌, ◌<◌, min, max, ◌≡◌, refl, sym, ap, subst, ◌∙◌, ◌≢◌,
  ◌↔◌, ◌⊎◌, inl, inr, Bool, true, false, not, ◌&&◌, ◌||◌, Option, none, some, List, [], ◌∷◌, ◌++◌,
  map, arith, eq_iff, eq_refl, String, Map, lookup, insert, delete, retain, guarded, lookup-insert,
  lookup-delete, lookup-retain, modify, update_all, apply, lookup-modify, lookup-update_all,
  map_laws, length, keep, any, All, length-append, length-keep-le, ltb, leb, eqb, ◌==◌,
  if◌then◌else◌, Bool-cases, Option-cases, trim_space,
}

pub record Session : Type 0 where
  pub username : String
  pub device_info : String
  pub expires_at : ℕ
  pub revoked : Bool
  pub pending_device : Bool

-- A row of `qr_login_tokens`.
pub record QrToken : Type 0 where
  pub username : String
  pub session_token : String
  pub device_info : String
  pub approved : Bool
  pub expires_at : ℕ

-- A row of `password_resets`.
pub record Reset : Type 0 where
  pub username : String
  pub expires_at : ℕ
  pub used : Bool

-- A row of `device_challenges`.
pub record Challenge : Type 0 where
  pub id : ℕ
  pub username : String
  pub device_id : String
  pub session_token : String
  pub code : String
  pub label : String
  pub ip : String
  pub attempts : ℕ
  pub consumed : Bool
  pub approved : Bool
  pub expires_at : ℕ

-- The tables, each keyed as in the schema. Challenges stand newest first; `next_id` is what
-- AUTOINCREMENT gives out next. `passwords` is the column `password_hash` of `users`.
pub record Store : Type 0 where
  pub sessions : Map Session
  pub qr_tokens : Map QrToken
  pub resets : Map Reset
  pub challenges : List Challenge
  pub next_id : ℕ
  pub known_devices : List (String × String)
  pub passwords : Map String

abbrev pub second : ℕ
second = 1000000000

abbrev pub hour : ℕ
hour = 3600 * second

unfoldable pub new_session : String → String → ℕ → Session
new_session username device expires = record {
  username = username;
  device_info = device;
  expires_at = expires;
  revoked = false;
  pending_device = false;
}

-- `INSERT INTO session_tokens`: refused if the token is there already. The flag says that it was not.
unfoldable pub insert_session : String → Session → Store → Bool × Store
insert_session token session s = elim (lookup token s.sessions) [
  | none ↦ (true, record s { sessions = insert token session s.sessions })
  | some _ ↦ (false, s)
]

-- The token, and whether there was no error. A token whose row is refused is returned all the same.
unfoldable pub issue_session_token :
    ℕ → Option String → String → String → Store → String × Bool × Store
unfolding new_session insert_session
issue_session_token now none username device s = ("", false, s)
issue_session_token now (some token) username device s =
    let (ok, s') = insert_session token (new_session username device (now + 30 * 24 * hour)) s in
    (token, ok, s')

unfoldable pub issue_admin_session_token :
    ℕ → Option String → String → Store → String × Bool × Store
unfolding new_session insert_session
issue_admin_session_token now none username s = ("", false, s)
issue_admin_session_token now (some token) username s =
    let (ok, s') = insert_session token (new_session username "admin-portal" (now + 4 * hour)) s in
    (token, ok, s')

-- The account of a token, and whether its device still waits for approval.
unfoldable pub session_state : ℕ → String → Store → String × Bool
session_state now token s = if token == "" then ("", false) else elim (lookup token s.sessions) [
  | none ↦ ("", false)
  | some r ↦
      if r.revoked || ltb r.expires_at now then ("", false) else (r.username, r.pending_device)
]

unfoldable pub session_username : ℕ → String → Store → String
unfolding session_state
session_username now token s =
    let (u, pending) = session_state now token s in if pending then "" else u

unfoldable pub mark_session_pending_device : String → Store → Store
mark_session_pending_device token s = record s {
  sessions = modify (λ r. record r { pending_device = true }) token s.sessions;
}

unfoldable pub revoke_session : String → Store → Store
revoke_session token s = record s {
  sessions = modify (λ r. record r { revoked = true }) token s.sessions;
}

-- "revoke_session_by_token": only a session of the caller's own account.
unfoldable pub revoke_session_by_token : String → String → Store → Store
revoke_session_by_token token username s = record s {
  sessions =
      modify (λ r. if r.username == username then record r { revoked = true } else r) token
        s.sessions;
}

-- The update at the end of "change_password": every session of the account but the caller's.
unfoldable pub revoke_others : (String → Session → Session) → Map Session → Map Session
revoke_others f [] = []
revoke_others f ((k, r) ∷ m) = (k, f k r) ∷ revoke_others f m

unfoldable pub change_password_sessions : String → String → Store → Store
unfolding revoke_others
change_password_sessions username token s = record s {
  sessions =
      revoke_others
        (λ k r.
          if r.username == username && not (k == token) then record r { revoked = true } else r)
        s.sessions;
}

pub lookup-revoke_others :
    (f : String → Session → Session) (j : String) (m : Map Session)
    → lookup j (revoke_others f m) ≡ apply (f j) (lookup j m)
unfolding lookup revoke_others
lookup-revoke_others f j [] = refl
lookup-revoke_others f j ((i, r) ∷ m) = ground (arith, eq_iff i j, lookup-revoke_others f j m)
