-- ===== src/Accounts.antt =====
-- nexus_server/main.go and totp.go: passwords, bans and the second factor. `compare`, `generate`,
-- `sha256` and `sha256_hex` stand for bcrypt's two functions and the hash as bytes and as text, and
-- `validate now code secret` for `totp.Validate` at a time. Times are nanoseconds.
pub mod Passwords
pub mod OneTime
use phazechat_world.Prelude.{
  ℕ, zero, suc, ◌+◌, ◌-◌, ◌*◌, ◌/◌, ◌%◌, ◌≤◌, ◌<◌, min, max, ◌≡◌, refl, sym, ap, subst, ◌∙◌, ◌≢◌,
  ◌↔◌, ◌⊎◌, inl, inr, Bool, true, false, not, ◌&&◌, ◌||◌, Option, none, some, List, [], ◌∷◌, ◌++◌,
  map, arith, eq_iff, eq_refl, String, Map, lookup, insert, delete, retain, guarded, lookup-insert,
  lookup-delete, lookup-retain, modify, update_all, apply, lookup-modify, lookup-update_all,
  map_laws, length, keep, any, All, length-append, length-keep-le, ltb, leb, eqb, ◌==◌,
  if◌then◌else◌, Bool-cases, Option-cases, trim_space, has, without, including, has-without,
  has-including, is_empty, starts_with,
}
use Prim.Native.Char.{code as code_of}
use Prim.Native.String.{◌++◌ as append}

-- The columns of `users` that sign-in reads; a NULL is `none`.
pub record User : Type 0 where
  pub password_hash : String
  pub is_verified : Bool
  pub verification_code : Option String
  pub is_banned : Bool
  pub ban_reason : String
  pub totp_secret : String
  pub totp_enabled : Bool

-- A row of `totp_backup_codes`.
pub record BackupCode : Type 0 where
  pub username : String
  pub code_hash : String
  pub used : Bool

-- The two tables, and `totpUsedCodes` with the end of each entry.
pub record Accounts : Type 0 where
  pub users : Map User
  pub backup_codes : List BackupCode
  pub totp_used_codes : Map ℕ

unfoldable pub update_user : (User → User) → String → Accounts → Accounts
update_user f username a = record a { users = modify f username a.users }

unfoldable pub code_matches : String → User → Bool
code_matches c u = elim u.verification_code [
  | none ↦ false
  | some d ↦ not (d == "") && not (c == "") && d == c
]

unfoldable pub verify_user : String → String → Accounts → Bool × Accounts
unfolding update_user code_matches
verify_user username c a = elim (lookup username a.users) [
  | none ↦ (false, a)
  | some u ↦
      if code_matches c u
      then (
        true,
        update_user (λ v. record v { is_verified = true; verification_code = none }) username a,
      )
      else (false, a)
]

unfoldable pub user_ban_info : String → Accounts → Bool × String
user_ban_info username a = elim (lookup username a.users) [
  | none ↦ (false, "")
  | some u ↦ (u.is_banned, u.ban_reason)
]

module _ (compare : String → String → Bool) (generate : String → Option String)
    (sha256 : String → String) where
  -- The silent re-hash after a match of the old scheme.
  unfoldable pub migrate : String → String → Accounts → Accounts
  unfolding update_user
  migrate username password a = elim (generate (sha256 password)) [
    | none ↦ a
    | some h ↦ update_user (λ u. record u { password_hash = h }) username a
  ]

  unfoldable pub check_password : String → String → User → Accounts → Bool × Accounts
  unfolding migrate
  check_password username password u a =
      if compare u.password_hash (sha256 password)
      then (true, a)
      else if compare u.password_hash password
      then (true, migrate username password a)
      else (false, a)

  unfoldable pub authenticate_user : String → String → Accounts → Bool × Accounts
  unfolding check_password
  authenticate_user username password a = elim (lookup username a.users) [
    | none ↦ (false, a)
    | some u ↦ if not u.is_verified then (false, a) else check_password username password u a
  ]

unfoldable pub totp_status : String → Accounts → String × Bool
totp_status username a = elim (lookup username a.users) [
  | none ↦ ("", false)
  | some u ↦ (u.totp_secret, u.totp_enabled)
]

unfoldable pub disable_totp : String → Accounts → Accounts
unfolding update_user
disable_totp username a =
    let a' = update_user (λ u. record u { totp_secret = ""; totp_enabled = false }) username a in
    record a' { backup_codes = keep (λ b. not (b.username == username)) a'.backup_codes }

-- The round of the goroutine that drops entries whose end is past.
unfoldable pub sweep_totp_codes : ℕ → Accounts → Accounts
sweep_totp_codes now a = record a {
  totp_used_codes = retain (λ expiry. leb now expiry) a.totp_used_codes;
}

-- `LoadOrStore` on the codes that were used.
unfoldable pub use_code : ℕ → String → Accounts → Bool × Accounts
use_code now key a = elim (lookup key a.totp_used_codes) [
  | some expiry ↦ (false, a)
  | none ↦
      (true, record a { totp_used_codes = insert key (now + 60 * 1000000000) a.totp_used_codes })
]

unfoldable pub totp_key : String → String → String
totp_key username c = append username (append ":" c)

module _ (validate : ℕ → String → String → Bool) where
  unfoldable pub enable_totp : ℕ → String → String → String → Accounts → Bool × Accounts
  unfolding update_user
  enable_totp now username secret c a = if not (validate now c secret) then (false, a) else (
    true,
    update_user (λ u. record u { totp_secret = secret; totp_enabled = true }) username a,
  )

  unfoldable pub verify_totp : ℕ → String → String → Accounts → Bool × Accounts
  unfolding totp_status use_code totp_key
  verify_totp now username c a =
      let (secret, enabled) = totp_status username a in
      if not enabled || secret == ""
      then (true, a)
      else if not (validate now c secret)
      then (false, a)
      else use_code now (totp_key username c) a

unfoldable pub strip_dashes : String → String
strip_dashes String.[] = String.[]
strip_dashes (String.◌∷◌ c s) =
    let rest = strip_dashes s in if eqb (code_of c) 45 then rest else String.◌∷◌ c rest

unfoldable pub is_unused : String → String → BackupCode → Bool
is_unused username hash b = b.username == username && b.code_hash == hash && not b.used

-- `UPDATE … SET used = 1 WHERE username = ? AND code_hash = ? AND used = 0`
unfoldable pub mark_used : String → String → List BackupCode → List BackupCode
unfolding is_unused
mark_used username hash [] = []
mark_used username hash (b ∷ bs) =
    (if is_unused username hash b then record b { used = true } else b) ∷ mark_used username hash bs

module _ (sha256_hex : String → String) where
  unfoldable pub consume_backup_code : String → String → Accounts → Bool × Accounts
  unfolding strip_dashes is_unused mark_used
  consume_backup_code username c a =
      let hash = sha256_hex (strip_dashes c) in
      (
        any (is_unused username hash) a.backup_codes,
        record a { backup_codes = mark_used username hash a.backup_codes },
      )
