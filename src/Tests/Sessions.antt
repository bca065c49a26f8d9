-- ===== src/Tests/Sessions.antt =====
-- Sessions: nexus_server/session.go, devices.go and main.go.
use phazechat_world.Prelude.{
  ℕ, ◌*◌, Bool, ltb, apply, ◌==◌, if◌then◌else◌, ◌≤◌, ◌≡◌, refl, ◌⊎◌, inl, true, false, Option,
  some, List, [], ◌∷◌, arith, String, lookup, insert, modify, trim_space,
}
use phazechat_world.Sessions.{
  Session, QrToken, Challenge, Store, session_username, issue_session_token, hour,
}
use phazechat_world.Sessions.Operations.{revokes, verifies, holds, run, step}
use phazechat_world.Sessions.Release.{IsRelease}
use phazechat_world.Sessions.Lifetime.{session_username-run, session_username-step_held}
use phazechat_world.Sessions.Devices.{
  latest_challenge, approve_device_challenge, verify_device_challenge,
}
use phazechat_world.Sessions.Guesses.{
  AreWrong, IsRefused, try_codes, verify_device_challenge-try_codes,
}
use phazechat_world.Sessions.PasswordReset.{
  begin_reset, accepted, commit_reset, IsAccepted, IsDenied,
}
use phazechat_world.Sessions.Once.{commit_reset-begin_reset}
use phazechat_world.Sessions.Qr.{approve_qr_login, check_qr_login}
use phazechat_world.Sessions.QrOnce.{check_qr_login-approve_qr_login}

abbrev laptop : Session
laptop = record {
  username = "alice";
  device_info = "laptop";
  expires_at = 1000;
  revoked = false;
  pending_device = true;
}

abbrev sign_in : Challenge
sign_in = record {
  id = 1;
  username = "alice";
  device_id = "d1";
  session_token = "t1";
  code = "123456";
  label = "Firefox on Linux";
  ip = "10.0.0.1";
  attempts = 0;
  consumed = false;
  approved = false;
  expires_at = 900;
}

abbrev store : Store
store = record {
  sessions = ("t1", laptop) ∷ [];
  qr_tokens =
      (
        "q1",
        record {
          username = "";
          session_token = "";
          device_info = "";
          approved = false;
          expires_at = 300;
        },
      )
      ∷ [];
  resets = ("r1", record { username = "alice"; expires_at = 500; used = false }) ∷ [];
  challenges = sign_in ∷ [];
  next_id = 2;
  known_devices = [];
  passwords = ("alice", "old") ∷ [];
}

-- As if the database compared times.
abbrev later_than : ℕ → ℕ → Bool
later_than end now = ltb now end

abbrev earlier_than : ℕ → ℕ → Bool
earlier_than end now = ltb end now

abbrev no_hash : String → Option String
no_hash p = some p

right_code :
    session_username 100 "t1" (run later_than earlier_than (verifies 50 "t1" " 123456 " ∷ []) store)
    ≡ "alice"
unfolding session_username run step verify_device_challenge approve_device_challenge
    latest_challenge lookup modify trim_space
right_code = refl

session_username-run_example :
    (session_username 100 "t1" (run later_than earlier_than (revokes "t1" ∷ holds "t1" ∷ []) store)
      ≡ "")
    ⊎ ((session_username 100 "t1"
            (run later_than earlier_than (revokes "t1" ∷ holds "t1" ∷ []) store)
          ≡ "alice")
        × (laptop.revoked ≡ false)
        × (100 ≤ laptop.expires_at))
unfolding lookup
session_username-run_example =
    session_username-run later_than earlier_than (revokes "t1" ∷ holds "t1" ∷ []) 100 "t1" laptop
      store refl

session_username-step_held_example :
    (session_username 100 "t1" store ≡ "")
    × ((session_username 100 "t1" (step later_than earlier_than (verifies 50 "t1" "123456") store)
          ≡ "")
        ⊎ IsRelease "t1" (verifies 50 "t1" "123456") store)
unfolding lookup
session_username-step_held_example =
    session_username-step_held later_than earlier_than (verifies 50 "t1" "123456") 100 "t1" store
      (inl refl)

abbrev guesses : List (ℕ × String)
guesses = (1, "000000") ∷ (2, "000001") ∷ (3, "000002") ∷ (4, "000003") ∷ (5, "000004") ∷ []

wrong_guesses : AreWrong sign_in.code sign_in.expires_at guesses
unfolding trim_space
wrong_guesses = (
  refl,
  omega arith,
  (refl, omega arith, (refl, omega arith, (refl, omega arith, (refl, omega arith, tt)))),
)

verify_device_challenge-try_codes_example :
    ((try_codes "t1" guesses store).sessions ≡ store.sessions)
    × ((now : ℕ) (code : String)
        → IsRefused (verify_device_challenge now "t1" code (try_codes "t1" guesses store)).0
          × ((verify_device_challenge now "t1" code (try_codes "t1" guesses store)).1
              ≡ try_codes "t1" guesses store))
unfolding latest_challenge trim_space
verify_device_challenge-try_codes_example =
    verify_device_challenge-try_codes "t1" sign_in guesses store refl refl wrong_guesses
      (omega arith)

reset_begins : begin_reset no_hash 100 "r1" "new password" store ≡ accepted "alice" "new password"
unfolding begin_reset lookup
reset_begins = refl

commit_reset-begin_reset_example :
    let t = run later_than earlier_than (revokes "t1" ∷ []) store in
    let t' = commit_reset "r1" "alice" "new password" t in
    IsAccepted no_hash 100 "new password" "alice" "new password" (lookup "r1" store.resets)
    × (lookup "alice" t'.passwords ≡ apply (λ _. "new password") (lookup "alice" t.passwords))
    × ((later : ℕ) (k : String)
        → session_username later k t'
          ≡ (if session_username later k t == "alice" then "" else session_username later k t))
    × ((later : ℕ) (again : String)
        → IsDenied (
            begin_reset no_hash later "r1" again
              (run later_than earlier_than (holds "t1" ∷ []) t')))
commit_reset-begin_reset_example =
    commit_reset-begin_reset no_hash later_than earlier_than (revokes "t1" ∷ []) (holds "t1" ∷ [])
      100 "r1" "new password" "alice" "new password" store reset_begins

-- Two resets with one token, both begun before either commits: both commit, the last one wins.
two_resets_commit :
    (begin_reset no_hash 100 "r1" "first password" store ≡ accepted "alice" "first password")
    × (begin_reset no_hash 100 "r1" "other password" store ≡ accepted "alice" "other password")
    × (lookup "alice" (commit_reset "r1" "alice" "first password" store).passwords
        ≡ some "first password")
    × (lookup "alice"
          (commit_reset "r1" "alice" "other password"
            (commit_reset "r1" "alice" "first password" store)).passwords
        ≡ some "other password")
unfolding begin_reset commit_reset lookup modify
two_resets_commit = (refl, refl, refl, refl)

abbrev phone : Store
phone = (approve_qr_login later_than 100 (some "t2") "q1" "alice" "phone" store).1

approval_succeeds :
    (approve_qr_login later_than 100 (some "t2") "q1" "alice" "phone" store).0 ≡ true
unfolding approve_qr_login issue_session_token lookup insert
approval_succeeds = refl

abbrev shown : QrToken
shown = record {
  username = "";
  session_token = "";
  device_info = "";
  approved = false;
  expires_at = 300;
}

-- The poll at 200, the session after twenty days.
check_qr_login-approve_qr_login_example :
    (shown.approved ≡ false)
    × (later_than shown.expires_at 100 ≡ true)
    × (check_qr_login 200 "q1" phone
        ≡ record { username = "alice"; session = "t2"; approved = true; exists = true })
    × (session_username (20 * 24 * hour) "t2" phone ≡ "alice")
    × ((at : ℕ) (again : Option String) (other place : String)
        → ((approve_qr_login later_than at again "q1" other place phone).0 ≡ false)
          × (check_qr_login 200 "q1" (approve_qr_login later_than at again "q1" other place phone).1
              ≡ check_qr_login 200 "q1" phone))
unfolding lookup
check_qr_login-approve_qr_login_example =
    check_qr_login-approve_qr_login later_than 100 200 (20 * 24 * hour) "t2" "q1" "alice" "phone"
      store shown (λ e. cc) refl approval_succeeds
