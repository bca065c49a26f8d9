-- ===== src/Sessions/Once.antt =====
-- nexus_server/main.go: a password reset, whatever else happens while it hashes, and its end.
use phazechat_world.Prelude.{
  ℕ, ◌≡◌, subst, inl, inr, Bool, true, false, Option, none, some, List, arith, eq_iff, eq_refl,
  String, lookup, apply, lookup-modify, lookup-update_all, ◌==◌, if◌then◌else◌, Option-cases,
}
use phazechat_world.Sessions.{Session, Reset, Store, session_username}
use phazechat_world.Sessions.Row.{session_of, session_username_of}
use phazechat_world.Sessions.PasswordReset.{
  commit_reset, begin_reset, accepted, IsAccepted, IsDenied, begin_reset-IsAccepted,
  begin_reset-IsDenied,
}
use phazechat_world.Sessions.Operations.{Op, run}
use phazechat_world.Sessions.Spent.{Marked, run-Marked}

session_of-revoked :
    (now : ℕ) (username token : String) (o : Option Session)
    → session_of now token
        (apply (λ r. if r.username == username then record r { revoked = true } else r) o)
      ≡ (if session_of now token o == username then "" else session_of now token o)
unfolding session_of
session_of-revoked now username token none = ground arith
session_of-revoked now username token (some r) = ground (arith, eq_iff "" username)

-- The commit spends the token.
commit_reset-Marked :
    (token username h : String) (s : Store)
    → Marked false (lookup token s.resets)
    → Marked true (lookup token (commit_reset token username h s).resets)
unfolding commit_reset
commit_reset-Marked token username h s k =
    ground
      (arith, k, eq_refl token, lookup-modify (λ r. record r { used = true }) token token s.resets)

Marked-IsDenied :
    (hash : String → Option String) (now : ℕ) (token password : String) (s : Store)
    → Marked true (lookup token s.resets)
    → IsDenied (begin_reset hash now token password s)
Marked-IsDenied hash now token password s k = elim (Option-cases (lookup token s.resets)) [
  | inl e ↦ absurd (subst (Marked true) e k)
  | inr (r, e) ↦
      begin_reset-IsDenied hash now token password r s e (ground (arith, subst (Marked true) e k))
]

IsAccepted-Marked :
    (hash : String → Option String) (now : ℕ) (password username h : String) (o : Option Reset)
    → IsAccepted hash now password username h o
    → Marked false o
IsAccepted-Marked hash now password username h none a = a
IsAccepted-Marked hash now password username h (some r) a = ground arith

-- A reset whose first half accepts a token read the token's row unused and not past its end, for
-- the account that it names, and the password has eight bytes or more. Whatever operations come
-- between the halves, the second half sets the account's password, leaves the account with no
-- session that authenticates, and leaves what every other token authenticates as it was just
-- before; and whatever operations come later, every reset with this token that begins then is
-- refused. The operations between may commit another reset with the token: this one commits all the
-- same.
pub commit_reset-begin_reset :
    (hash : String → Option String) (unexpired expired : ℕ → ℕ → Bool) (between after : List Op)
    (now : ℕ) (token password username h : String) (s : Store)
    → begin_reset hash now token password s ≡ accepted username h
    → let t = run unexpired expired between s in
      let t' = commit_reset token username h t in
      IsAccepted hash now password username h (lookup token s.resets)
      × (lookup username t'.passwords ≡ apply (λ _. h) (lookup username t.passwords))
      × ((later : ℕ) (k : String)
          → session_username later k t'
            ≡ (if session_username later k t == username then "" else session_username later k t))
      × ((later : ℕ) (again : String)
          → IsDenied (begin_reset hash later token again (run unexpired expired after t')))
unfolding commit_reset
commit_reset-begin_reset hash unexpired expired between after now token password username h s e =
    let t = run unexpired expired between s in
    let t' = commit_reset token username h t in
    let good = begin_reset-IsAccepted hash now token password username h s e in
    (
      good,
      ground (arith, eq_refl username, lookup-modify (λ _. h) username username t.passwords),
      λ later k.
          rw (session_username_of later k t', session_username_of later k t)
            (rw lookup-update_all (session_of-revoked later username k (lookup k t.sessions))),
      λ later again. Marked-IsDenied hash later token again (run unexpired expired after t') (
          run-Marked unexpired expired true token after t' (
            commit_reset-Marked token username h t (
              run-Marked unexpired expired false token between s
                (IsAccepted-Marked hash now password username h (lookup token s.resets) good)))),
    )
