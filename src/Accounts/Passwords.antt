-- ===== src/Accounts/Passwords.antt =====
-- Passwords across the migration of nexus_server/main.go's authenticateUser.
use phazechat_world.Prelude.{
  ◌≡◌, inl, inr, Bool, true, Option, some, arith, eq_iff, eq_refl, String, lookup, lookup-modify,
  ◌==◌, if◌then◌else◌, Option-cases,
}
use phazechat_world.Accounts.{Accounts, update_user, migrate, check_password, authenticate_user}

module _ (compare : String → String → Bool) (generate : String → Option String)
    (sha256 : String → String) where
  -- What bcrypt promises: a hash that it made of a text matches that text.
  unfoldable pub IsHashing : Type 0
  IsHashing = (p h : String) → generate p ≡ some h → compare h p ≡ true

  -- A sign-in that succeeds, migrating the hash or not, succeeds again with the same password and
  -- then changes nothing, and leaves all other accounts as they were. This is for a bcrypt whose
  -- hashes match what they were made of and that can hash this password.
  pub authenticate_user_again :
      (username password other h : String) (a : Accounts)
      → IsHashing
      → generate (sha256 password) ≡ some h
      → (authenticate_user compare generate sha256 username password a).0 ≡ true
      → (authenticate_user compare generate sha256 username password
            (authenticate_user compare generate sha256 username password a).1
          ≡ (true, (authenticate_user compare generate sha256 username password a).1))
        × (lookup other (authenticate_user compare generate sha256 username password a).1.users ≡ (
            if username == other
            then lookup username
                (authenticate_user compare generate sha256 username password a).1.users
            else lookup other a.users))
  unfolding authenticate_user check_password migrate update_user IsHashing
  authenticate_user_again username password other h a b g e =
      elim (Option-cases (lookup username a.users)) [
        | inl n ↦ ground (arith, e, n)
        | inr (u, n) ↦ ground (
          arith,
          e,
          n,
          g,
          b (sha256 password) h g,
          eq_iff username other,
          eq_refl username,
          lookup-modify (λ v. record v { password_hash = h }) username username a.users,
          lookup-modify (λ v. record v { password_hash = h }) username other a.users,
        )
      ]
