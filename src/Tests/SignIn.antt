-- ===== src/Tests/SignIn.antt =====
-- Signing in: nexus_server/ws_handlers.go, on the accounts of the tests of Accounts.
use phazechat_world.Prelude.{
  ℕ, ◌*◌, ◌≡◌, refl, Bool, true, false, none, some, List, [], ◌∷◌, arith, String, lookup, ◌==◌,
}
use phazechat_world.AuthTracker.{is_ip_throttled, is_user_locked, is_totp_throttled}
use phazechat_world.SignIn.{World, Message, auth}
use phazechat_world.SignIn.NeverBlocks.{
  Request, auths, resumes, polls, serve_all, blocked_ips-serve_all,
}
use phazechat_world.SignIn.Tokens.{session_username-auth}
use phazechat_world.Sessions.{session_username, issue_session_token, hour}
use phazechat_world.Accounts.{authenticate_user, user_ban_info, verify_totp}
use phazechat_world.Spaces.{is_server_member}

abbrev world : World
world = record {
  tracker = record { ip_fails = []; user_fails = []; totp_fails = []; signup_counts = [] };
  accounts = record {
    users =
        (
          "alice",
          record {
            password_hash = "hunter2";
            is_verified = true;
            verification_code = none;
            is_banned = false;
            ban_reason = "";
            totp_secret = "";
            totp_enabled = false;
          },
        )
        ∷ [];
    backup_codes = [];
    totp_used_codes = [];
  };
  store = record {
    sessions = [];
    qr_tokens = [];
    resets = [];
    challenges = [];
    next_id = 1;
    known_devices = [];
    passwords = [];
  };
  server = record {
    clients = [];
    conns = λ _. record {
      username = "";
      status = "";
      in_call = false;
      call_partner = "";
      pending_call_room = "";
      pending_call_id = 0;
      pending_call_started = 0;
      pending_call_rtc = false;
      pending_call_answered = false;
    };
  };
  spaces = record { channels = []; members = [] };
  blocked_ips = [];
}

abbrev compare_text : String → String → Bool
compare_text h p = h == p

abbrev no_totp : ℕ → String → String → Bool
no_totp now c secret = false

abbrev attempt : String → Message
attempt password = record {
  sender = "alice";
  body = password;
  totp_code = "";
  device_info = "phone";
}

abbrev attempts : List Request
attempts =
    auths 1 "10.0.0.9" 1 (some "t") (attempt "a")
    ∷ resumes 2 "10.0.0.9" 1 "stolen"
    ∷ polls 3 "10.0.0.9" 1 "guess"
    ∷ auths 4 "10.0.0.9" 1 (some "t") (attempt "b")
    ∷ []

blocked_ips-serve_all_example :
    (serve_all compare_text (λ p. some p) (λ p. p) (λ p. p) no_totp attempts world).blocked_ips ≡ []
blocked_ips-serve_all_example =
    blocked_ips-serve_all compare_text (λ p. some p) (λ p. p) (λ p. p) no_totp attempts world refl

session_username-auth_example :
    ("alice" ≡ (attempt "hunter2").sender)
    × (session_username
          (24 * hour)
          "t"
          (auth compare_text
            (λ p. some p)
            (λ p. p)
            (λ p. p)
            no_totp
            1
            "10.0.0.9"
            1
            (some "t")
            (attempt "hunter2")
            world).1.store
        ≡ "alice")
unfolding auth is_ip_throttled lookup is_user_locked authenticate_user user_ban_info
    is_totp_throttled verify_totp issue_session_token is_server_member
session_username-auth_example =
    session_username-auth compare_text (λ p. some p) (λ p. p) (λ p. p) no_totp 1 (24 * hour)
      "10.0.0.9" 1 (some "t") (attempt "hunter2") world "alice" "t" refl (omega arith) refl
      (λ e. cc)
