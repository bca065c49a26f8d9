-- ===== src/Sessions/PasswordReset.antt =====
-- nexus_server/main.go: password reset by email. `hash` is bcrypt over SHA-256. No lock is held
-- between the read of the token's row and the transaction that spends it, so that
-- `consumePasswordReset` is two operations, `begin_reset` and `commit_reset`, with whatever other
-- operations between them.
use Prim.Native.String.{len}
use phazechat_world.Prelude.{
  ℕ, ◌+◌, ◌≤◌, ◌≡◌, true, false, ◌||◌, Option, none, some, arith, String, lookup, insert, modify,
  update_all, ltb, ◌==◌, if◌then◌else◌,
}
use phazechat_world.Sessions.{Reset, Store, hour}

pub data ResetError : Type 0 where
  short_password no_reset reset_invalid hash_failed : ResetError

-- `createPasswordReset` once the account is known.
unfoldable pub create_password_reset : ℕ → Option String → String → Store → Option (String × Store)
create_password_reset now none username s = none
create_password_reset now (some token) username s = elim (lookup token s.resets) [
  | none ↦ some (
    token,
    record s {
      resets =
          insert token (record { username = username; expires_at = now + hour; used = false })
            s.resets;
    },
  )
  | some _ ↦ none
]

-- The transaction, which looks at the row no more: the new password, the spent token, and the end of every session.
unfoldable pub commit_reset : String → String → String → Store → Store
commit_reset token username password_hash s = record s {
  passwords = modify (λ _. password_hash) username s.passwords;
  resets = modify (λ r. record r { used = true }) token s.resets;
  sessions =
      update_all (λ r. if r.username == username then record r { revoked = true } else r)
        s.sessions;
}

-- What the first half of `consumePasswordReset` comes to: an error, or the account whose password is
-- to be set and the new hash.
pub data ResetCheck : Type 0 where
  denied : ResetError → ResetCheck
  accepted : String → String → ResetCheck

module _ (hash : String → Option String) where
  unfoldable pub hash_reset : String → String → ResetCheck
  hash_reset username password = elim (hash password) [
    | none ↦ denied hash_failed
    | some h ↦ accepted username h
  ]

  unfoldable pub check_reset : ℕ → String → Option Reset → ResetCheck
  unfolding hash_reset
  check_reset now password none = denied no_reset
  check_reset now password (some r) =
      if r.used || ltb r.expires_at now
      then denied reset_invalid
      else hash_reset r.username password

  -- `consumePasswordReset` up to its transaction: it reads the row, checks it and hashes, and
  -- changes nothing.
  unfoldable pub begin_reset : ℕ → String → String → Store → ResetCheck
  unfolding check_reset
  begin_reset now token password s =
      if ltb (len password) 8
      then denied short_password
      else check_reset now password (lookup token s.resets)

-- What is accepted.
abbrev pub IsAccepted :
    (String → Option String) → ℕ → String → String → String → Option Reset → Type 0
IsAccepted hash now password username h none = ⊥
IsAccepted hash now password username h (some r) =
    (r.username ≡ username)
    × (r.used ≡ false)
    × (now ≤ r.expires_at)
    × (8 ≤ len password)
    × (hash password ≡ some h)

pub begin_reset-IsAccepted :
    (hash : String → Option String) (now : ℕ) (token password username h : String) (s : Store)
    → begin_reset hash now token password s ≡ accepted username h
    → IsAccepted hash now password username h (lookup token s.resets)
unfolding begin_reset check_reset hash_reset
begin_reset-IsAccepted hash now token password username h s e = ground (arith, e)

-- A used token is refused.
abbrev pub IsDenied : ResetCheck → Type 0
IsDenied (denied e) = Unit {0}
IsDenied (accepted username h) = ⊥

pub begin_reset-IsDenied :
    (hash : String → Option String) (now : ℕ) (token password : String) (r : Reset) (s : Store)
    → lookup token s.resets ≡ some r
    → r.used ≡ true
    → IsDenied (begin_reset hash now token password s)
unfolding begin_reset check_reset
begin_reset-IsDenied hash now token password r s found used = ground (arith, found, used)
