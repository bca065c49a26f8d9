-- ===== src/Tests/Accounts.antt =====
-- Accounts: nexus_server/totp.go and the passwords of main.go, with texts for hashes.
use phazechat_world.Prelude.{
  ℕ, ◌≡◌, refl, Bool, true, false, Option, none, some, [], ◌∷◌, arith, eq_iff, String, lookup, ◌==◌,
  if◌then◌else◌,
}
use phazechat_world.Accounts.{
  User, Accounts, totp_status, verify_totp, consume_backup_code, strip_dashes, authenticate_user,
  check_password, use_code,
}
use phazechat_world.Accounts.Passwords.{IsHashing, authenticate_user_again}
use phazechat_world.Accounts.OneTime.{
  tries, sweeps, steps, consume_backup_code_once, verify_totp_once,
}

-- A hash of a text is the text, and the hash that the old scheme left is "hunter2" itself.
abbrev compare_text : String → String → Bool
compare_text h p = h == p

abbrev generate_text : String → Option String
generate_text p = some p

abbrev sha : String → String
sha p = if p == "hunter2" then "sha-hunter2" else p

abbrev alice : User
alice = record {
  password_hash = "hunter2";
  is_verified = true;
  verification_code = none;
  is_banned = false;
  ban_reason = "";
  totp_secret = "base32";
  totp_enabled = true;
}

abbrev accounts : Accounts
accounts = record {
  users = ("alice", alice) ∷ [];
  backup_codes = record { username = "alice"; code_hash = "abcdef0123"; used = false } ∷ [];
  totp_used_codes = [];
}

text-IsHashing : IsHashing compare_text generate_text sha
unfolding IsHashing
text-IsHashing p h e = ground (arith, e, eq_iff h p)

authenticate_user_again_example :
    (authenticate_user compare_text generate_text sha "alice" "hunter2"
        (authenticate_user compare_text generate_text sha "alice" "hunter2" accounts).1
      ≡ (true, (authenticate_user compare_text generate_text sha "alice" "hunter2" accounts).1))
    × (lookup "bob"
          (authenticate_user compare_text generate_text sha "alice" "hunter2" accounts).1.users
        ≡ (if "alice" == "bob"
            then lookup "alice"
                (authenticate_user compare_text generate_text sha "alice" "hunter2"
                  accounts).1.users
            else lookup "bob" accounts.users))
unfolding authenticate_user check_password lookup
authenticate_user_again_example =
    authenticate_user_again compare_text generate_text sha "alice" "hunter2" "bob" "sha-hunter2"
      accounts text-IsHashing refl refl

consume_backup_code_once_example :
    ((consume_backup_code
        (λ t. t)
        "alice"
        "abcdef0123"
        (consume_backup_code (λ t. t) "alice" "abcde-f0123" accounts).1).0
      ≡ false)
    × ((consume_backup_code
          (λ t. t)
          "bob"
          "00000-00000"
          (consume_backup_code (λ t. t) "alice" "abcde-f0123" accounts).1).0
        ≡ (consume_backup_code (λ t. t) "bob" "00000-00000" accounts).0)
unfolding strip_dashes
consume_backup_code_once_example =
    consume_backup_code_once (λ t. t) "alice" "bob" "abcde-f0123" "abcdef0123" "00000-00000"
      accounts refl (λ e. cc)

abbrev second_factor : ℕ → String → String → Bool
second_factor now c secret = c == "123456"

verify_totp_once_example :
    (verify_totp second_factor 40000000000 "alice" "123456" (
      steps second_factor
        (tries 20000000000 "bob" "123456" ∷ sweeps 30000000000 ∷ [])
        (verify_totp second_factor 10000000000 "alice" "123456" accounts).1)).0
    ≡ false
unfolding totp_status lookup verify_totp use_code
verify_totp_once_example =
    verify_totp_once second_factor 10000000000 40000000000 "alice" "123456"
      (tries 20000000000 "bob" "123456" ∷ sweeps 30000000000 ∷ []) accounts refl (λ e. cc) refl
      (tt, (omega arith, tt))
