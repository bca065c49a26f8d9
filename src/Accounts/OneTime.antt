-- ===== src/Accounts/OneTime.antt =====
-- One-time codes of nexus_server/totp.go.
use phazechat_world.Prelude.{
  ℕ, ◌+◌, ◌*◌, ◌≤◌, ◌≡◌, refl, subst, ◌∙◌, ◌≢◌, Bool, true, false, none, some, List, [], ◌∷◌, arith,
  eq_iff, eq_refl, String, lookup, lookup-insert, lookup-retain, any, All, leb,
}
use phazechat_world.Accounts.{
  BackupCode, Accounts, totp_status, sweep_totp_codes, use_code, totp_key, verify_totp,
  strip_dashes, is_unused, mark_used, consume_backup_code,
}

mark_used-spent :
    (u h : String) (bs : List BackupCode) → any (is_unused u h) (mark_used u h bs) ≡ false
unfolding mark_used is_unused
mark_used-spent u h [] = refl
mark_used-spent u h (b ∷ bs) = ground (arith, mark_used-spent u h bs)

mark_used-other :
    (u v h k : String) (bs : List BackupCode)
    → u ≢ v
    → any (is_unused v k) (mark_used u h bs) ≡ any (is_unused v k) bs
unfolding mark_used is_unused
mark_used-other u v h k [] d = refl
mark_used-other u v h k (b ∷ bs) d =
    ground (arith, d, eq_iff b.username u, eq_iff b.username v, mark_used-other u v h k bs d)

-- A backup code works at most once: after it was tried, with success or not, it is refused for the
-- same user, with dashes or without; and what any code does for another user is as it was.
pub consume_backup_code_once :
    (sha256_hex : String → String) (u v c c' k : String) (a : Accounts)
    → strip_dashes c ≡ strip_dashes c'
    → u ≢ v
    → ((consume_backup_code sha256_hex u c' (consume_backup_code sha256_hex u c a).1).0 ≡ false)
      × ((consume_backup_code sha256_hex v k (consume_backup_code sha256_hex u c a).1).0
          ≡ (consume_backup_code sha256_hex v k a).0)
unfolding consume_backup_code
consume_backup_code_once sha256_hex u v c c' k a e d = (
  subst
      (λ t.
        any (is_unused u (sha256_hex t)) (mark_used u (sha256_hex (strip_dashes c)) a.backup_codes)
        ≡ false)
      e (mark_used-spent u (sha256_hex (strip_dashes c)) a.backup_codes),
  mark_used-other u v (sha256_hex (strip_dashes c)) (sha256_hex (strip_dashes k)) a.backup_codes d,
)

-- What happens to the second factor: a code is tried by someone at a time, or the sweeper runs.
pub data Step : Type 0 where
  tries : ℕ → String → String → Step
  sweeps : ℕ → Step

module _ (validate : ℕ → String → String → Bool) where
  unfoldable pub step : Step → Accounts → Accounts
  step (tries now username c) a = (verify_totp validate now username c a).1
  step (sweeps now) a = sweep_totp_codes now a

  unfoldable pub steps : List Step → Accounts → Accounts
  steps [] a = a
  steps (s ∷ ss) a = steps ss (step s a)

  -- A step of the sweeper is no later than a time; a code may be tried at any time.
  abbrev pub IsBy : ℕ → Step → Type 0
  IsBy until (tries now username c) = Unit
  IsBy until (sweeps now) = now ≤ until

  step-users : (s : Step) (a : Accounts) → (step s a).users ≡ a.users
  unfolding step verify_totp use_code sweep_totp_codes
  step-users (tries now u c) a = ground (arith)
  step-users (sweeps now) a = refl

  -- The entry of a code stays until its end.
  step-entry :
      (until : ℕ) (key : String) (s : Step) (a : Accounts)
      → IsBy until s
      → lookup key a.totp_used_codes ≡ some until
      → lookup key (step s a).totp_used_codes ≡ some until
  unfolding step verify_totp use_code sweep_totp_codes
  step-entry until key (tries now u c) a b h = ground (
    arith,
    h,
    eq_iff (totp_key u c) key,
    lookup-insert (totp_key u c) key (now + 60 * 1000000000) a.totp_used_codes,
  )
  step-entry until key (sweeps now) a b h =
      ground (arith, h, b, lookup-retain (λ expiry. leb now expiry) key a.totp_used_codes)

  steps-users : (ss : List Step) (a : Accounts) → (steps ss a).users ≡ a.users
  unfolding steps
  steps-users [] a = refl
  steps-users (s ∷ ss) a = steps-users ss (step s a) ∙ step-users s a

  steps-entry :
      (until : ℕ) (key : String) (ss : List Step) (a : Accounts)
      → All (IsBy until) ss
      → lookup key a.totp_used_codes ≡ some until
      → lookup key (steps ss a).totp_used_codes ≡ some until
  unfolding steps
  steps-entry until key [] a b h = h
  steps-entry until key (s ∷ ss) a (b, bs) h =
      steps-entry until key ss (step s a) bs (step-entry until key s a b h)

  refused_again :
      (later until : ℕ) (username c : String) (a a' : Accounts)
      → (totp_status username a).1 ≡ true
      → (totp_status username a).0 ≢ ""
      → a'.users ≡ a.users
      → lookup (totp_key username c) a'.totp_used_codes ≡ some until
      → (verify_totp validate later username c a').0 ≡ false
  unfolding verify_totp use_code totp_status
  refused_again later until username c a a' e n f h = ground (
    arith,
    e,
    n,
    f,
    h,
    eq_iff (elim (lookup username a.users) [ none ↦ "" | some u ↦ u.totp_secret ]) "",
  )

  accepted_entry :
      (now : ℕ) (username c : String) (a : Accounts)
      → (totp_status username a).1 ≡ true
      → (totp_status username a).0 ≢ ""
      → (verify_totp validate now username c a).0 ≡ true
      → lookup (totp_key username c) (verify_totp validate now username c a).1.totp_used_codes
        ≡ some (now + 60 * 1000000000)
  unfolding verify_totp use_code totp_status
  accepted_entry now username c a e n v = ground (
    arith,
    e,
    n,
    v,
    eq_refl (totp_key username c),
    lookup-insert (totp_key username c) (totp_key username c) (now + 60 * 1000000000)
        a.totp_used_codes,
    eq_iff (elim (lookup username a.users) [ none ↦ "" | some u ↦ u.totp_secret ]) "",
  )

  -- A code that an account with a second factor was let in with is refused for that account, at
  -- whatever time, as long as the sweeper did not run more than 60 seconds after, whatever codes are
  -- tried for whomever in between.
  pub verify_totp_once :
      (now later : ℕ) (username c : String) (ss : List Step) (a : Accounts)
      → (totp_status username a).1 ≡ true
      → (totp_status username a).0 ≢ ""
      → (verify_totp validate now username c a).0 ≡ true
      → All (IsBy (now + 60 * 1000000000)) ss
      → (verify_totp validate later username c
          (steps ss (verify_totp validate now username c a).1)).0
        ≡ false
  unfolding step
  verify_totp_once now later username c ss a e n v b =
      refused_again later (now + 60 * 1000000000) username c a
        (steps ss (verify_totp validate now username c a).1) e n
        (steps-users ss (verify_totp validate now username c a).1
          ∙ step-users (tries now username c) a)
        (steps-entry (now + 60 * 1000000000) (totp_key username c) ss
          (verify_totp validate now username c a).1 b (accepted_entry now username c a e n v))
