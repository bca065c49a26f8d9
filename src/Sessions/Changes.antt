-- ===== src/Sessions/Changes.antt =====
-- What any operation on the session tables can do to the session of a token.
use phazechat_world.Prelude.{
  ℕ, ◌≡◌, refl, sym, any, subst, inl, inr, Bool, true, false, not, ◌&&◌, ◌||◌, Option, none, some,
  arith, eq_iff, String, Map, lookup, insert, lookup-insert, modify, update_all, apply,
  lookup-modify, lookup-update_all, eqb, ◌==◌, if◌then◌else◌, Bool-cases, Option-cases,
}
use phazechat_world.Sessions.Qr.{create_qr_login, approve_row, approve_qr_login}
use phazechat_world.Sessions.PasswordReset.{create_password_reset, commit_reset}
use phazechat_world.Sessions.Devices.{
  create_device_challenge, latest_challenge, remember_device, approve_device_challenge,
  deny_device_challenge, verify_device_challenge, lookup_device_challenge, resolve_device_challenge,
  settle_challenge, purge_expired_device_challenges,
}
use phazechat_world.Sessions.{
  Session, Challenge, Store, new_session, insert_session, issue_session_token,
  issue_admin_session_token, mark_session_pending_device, revoke_session, revoke_session_by_token,
  change_password_sessions, lookup-revoke_others,
}
use phazechat_world.Sessions.Operations.{
  Op, issues, issues_admin, holds, revokes, revokes_own, changes_password, creates_qr, approves_qr,
  creates_reset, commits_reset, challenges, verifies, resolves, purges, step,
}
use phazechat_world.Sessions.Release.{
  IsNewest, IsRelease, by_code, by_owner, latest_challenge-IsNewest, lookup_device_challenge-any,
  judge_code_cases,
}

-- How the row of a token changes in one step; `P` is what releasing it takes.
pub data RowChange (P : Type 0) (o o' : Option Session) : Type 0 where
  kept : o' ≡ o → RowChange P o o'
  added : o ≡ none → RowChange P o o'
  ended : (r : Session) → o ≡ some r → o' ≡ some (record r { revoked = true }) → RowChange P o o'
  held :
      (r : Session) → o ≡ some r → o' ≡ some (record r { pending_device = true }) → RowChange P o o'
  freed :
      (r : Session)
      → o ≡ some r
      → o' ≡ some (record r { pending_device = false })
      → P
      → RowChange P o o'

change_at :
    (P : Type 0) (f : Session → Session) (o : Option Session)
    → ((r : Session) → RowChange P (some r) (some (f r)))
    → RowChange P o (apply f o)
change_at P f none ok = kept refl
change_at P f (some r) ok = ok r

change_modify :
    (P : Type 0) (f : Session → Session) (token k : String) (m : Map Session)
    → (token ≡ k → (r : Session) → RowChange P (some r) (some (f r)))
    → RowChange P (lookup k m) (lookup k (modify f token m))
change_modify P f token k m ok = rw (lookup-modify f token k m) (elim (Bool-cases (token == k)) [
  | inl e ↦ rw e (change_at P f (lookup k m) (ok ((eq_iff token k).0 e)))
  | inr e ↦ rw e (kept refl)
])

change_all :
    (P : Type 0) (f : Session → Session) (k : String) (m : Map Session)
    → ((r : Session) → RowChange P (some r) (some (f r)))
    → RowChange P (lookup k m) (lookup k (update_all f m))
change_all P f k m ok = rw (lookup-update_all f k m) (change_at P f (lookup k m) ok)

-- The row is ended if a test passes, and kept if not.
end_if :
    (P : Type 0) (b : Bool) (r : Session)
    → RowChange P (some r) (some (if b then record r { revoked = true } else r))
end_if P true r = ended r refl refl
end_if P false r = kept refl

change_new :
    (P : Type 0) (token k : String) (r : Session) (m : Map Session)
    → lookup token m ≡ none
    → RowChange P (lookup k m) (lookup k (insert token r m))
change_new P token k r m e = rw (lookup-insert token k r m) (elim (Bool-cases (token == k)) [
  | inl same ↦ rw same (added (subst (λ t. lookup t m ≡ none) ((eq_iff token k).0 same) e))
  | inr other ↦ rw other (kept refl)
])

change_insert :
    (P : Type 0) (token k : String) (r : Session) (s : Store)
    → RowChange P (lookup k s.sessions) (lookup k (insert_session token r s).1.sessions)
unfolding insert_session
change_insert P token k r s = elim (Option-cases (lookup token s.sessions)) [
  | inl e ↦ rw (e, insert_session) (change_new P token k r s.sessions e)
  | inr (q, e) ↦ rw (e, insert_session) (kept refl)
]

change_issue :
    (P : Type 0) (now : ℕ) (rand : Option String) (username device k : String) (s : Store)
    → RowChange P
        (lookup k s.sessions)
        (lookup k (issue_session_token now rand username device s).2.sessions)
unfolding issue_session_token
change_issue P now none username device k s = kept refl
change_issue P now (some token) username device k s =
    change_insert P token k (new_session username device _) s

-- The QR codes are in another table.
approve_qr_login-sessions :
    (unexpired : ℕ → ℕ → Bool) (now : ℕ) (rand : Option String) (token username device : String)
    (s : Store)
    → (approve_qr_login unexpired now rand token username device s).1.sessions
      ≡ (issue_session_token now rand username device s).2.sessions
unfolding approve_qr_login approve_row
approve_qr_login-sessions unexpired now rand token username device s = ground arith

change_approves :
    (unexpired : ℕ → ℕ → Bool) (P : Type 0) (now : ℕ) (rand : Option String)
    (token username device k : String) (s : Store)
    → RowChange P
        (lookup k s.sessions)
        (lookup k (approve_qr_login unexpired now rand token username device s).1.sessions)
change_approves unexpired P now rand token username device k s =
    subst (λ m. RowChange P (lookup k s.sessions) (lookup k m))
      (sym (approve_qr_login-sessions unexpired now rand token username device s))
      (change_issue P now rand username device k s)

remember_device_sessions :
    (username device_id : String) (s : Store)
    → (remember_device username device_id s).sessions ≡ s.sessions
unfolding remember_device
remember_device_sessions username device_id s = ground arith

change_approval :
    (P : Type 0) (id : ℕ) (username device_id token k : String) (s : Store)
    → (token ≡ k → P)
    → RowChange P
        (lookup k s.sessions)
        (lookup k (approve_device_challenge id username device_id token s).sessions)
unfolding approve_device_challenge
change_approval P id username device_id token k s p =
    rw (remember_device_sessions username device_id)
      (change_modify P _ token k s.sessions (λ e r. freed r refl refl (p e)))

change_verifies :
    (now : ℕ) (token code k : String) (s : Store)
    → RowChange
        (IsRelease k (verifies now token code) s)
        (lookup k s.sessions)
        (lookup k (verify_device_challenge now token code s).1.sessions)
unfolding verify_device_challenge
change_verifies now token code k s = elim (Option-cases (latest_challenge token s.challenges)) [
  | inl missing ↦ rw (missing, verify_device_challenge) (kept refl)
  | inr (c, found) ↦
      rw (found, verify_device_challenge)
        (elim (judge_code_cases now token code c s) [
          | inl same ↦ rw same (kept refl)
          | inr (right, fresh, lasts, few, after) ↦ rw after (
              change_approval _ c.id c.username c.device_id token k s (λ same.
                by_code now code c (rw same)
                  (subst (λ t. IsNewest t c s.challenges) same
                    (latest_challenge-IsNewest token s.challenges c found))
                  right fresh lasts few))
        ])
]

change_settled :
    (approve : Bool) (id : ℕ) (username k : String) (c : Challenge) (s : Store)
    → lookup_device_challenge id username s.challenges ≡ some c
    → RowChange
        (IsRelease k (resolves approve id username) s)
        (lookup k s.sessions)
        (lookup k (settle_challenge approve id username c s).sessions)
unfolding settle_challenge deny_device_challenge
change_settled true id username k c s e =
    change_approval _ id username c.device_id c.session_token k s (λ same.
      by_owner id username refl (
        subst
          (λ t.
            any
              (λ d. eqb d.id id && d.username == username && d.session_token == t && not d.consumed)
              s.challenges
            ≡ true)
          same (lookup_device_challenge-any id username s.challenges c e)))
change_settled false id username k c s e =
    change_modify _ _ c.session_token k s.sessions (λ _ r. ended r refl refl)

change_resolves :
    (approve : Bool) (id : ℕ) (username k : String) (s : Store)
    → RowChange
        (IsRelease k (resolves approve id username) s)
        (lookup k s.sessions)
        (lookup k (resolve_device_challenge approve id username s).1.sessions)
unfolding resolve_device_challenge
change_resolves approve id username k s = elim (Bool-cases (username == "" || eqb id 0)) [
  | inl e ↦ rw (e, resolve_device_challenge) (kept refl)
  | inr e ↦
      rw (e, resolve_device_challenge)
        (elim (Option-cases (lookup_device_challenge id username s.challenges)) [
          | inl missing ↦ rw (missing, resolve_device_challenge) (kept refl)
          | inr (c, found) ↦
              rw (found, resolve_device_challenge) (change_settled approve id username k c s found)
        ])
]

change_commit :
    (P : Type 0) (token username password_hash k : String) (s : Store)
    → RowChange P
        (lookup k s.sessions)
        (lookup k (commit_reset token username password_hash s).sessions)
unfolding commit_reset
change_commit P token username password_hash k s =
    change_all P _ k s.sessions (λ q. end_if P (q.username == username) q)

-- One operation keeps the session of a token, ends it, holds it, or adds it under a new token;
-- only the code of its newest challenge or the account of one of its challenges releases it.
pub step-RowChange :
    (unexpired expired : ℕ → ℕ → Bool) (op : Op) (k : String) (s : Store)
    → RowChange
        (IsRelease k op s)
        (lookup k s.sessions)
        (lookup k (step unexpired expired op s).sessions)
unfolding step mark_session_pending_device revoke_session revoke_session_by_token
    change_password_sessions create_qr_login create_password_reset create_device_challenge
    purge_expired_device_challenges issue_admin_session_token
step-RowChange unexpired expired (issues now rand username device) k s =
    change_issue _ now rand username device k s
step-RowChange unexpired expired (issues_admin now none username) k s = kept refl
step-RowChange unexpired expired (issues_admin now (some token) username) k s =
    change_insert _ token k (new_session username "admin-portal" _) s
step-RowChange unexpired expired (holds token) k s =
    change_modify _ _ token k s.sessions (λ _ r. held r refl refl)
step-RowChange unexpired expired (revokes token) k s =
    change_modify _ _ token k s.sessions (λ _ r. ended r refl refl)
step-RowChange unexpired expired (revokes_own token username) k s =
    change_modify _ _ token k s.sessions (λ _ r. end_if _ (r.username == username) r)
step-RowChange unexpired expired (changes_password username token) k s = rw lookup-revoke_others (
    change_at _ _ (lookup k s.sessions)
      (λ r. end_if _ (r.username == username && not (k == token)) r))
step-RowChange unexpired expired (creates_qr now rand) k s = kept (ground arith)
step-RowChange unexpired expired (approves_qr now rand token username device) k s =
    change_approves unexpired _ now rand token username device k s
step-RowChange unexpired expired (creates_reset now rand username) k s = kept (ground arith)
step-RowChange unexpired expired (commits_reset token username password_hash) k s =
    change_commit _ token username password_hash k s
step-RowChange unexpired expired (challenges now rand username device_id token label ip) k s =
    kept (ground arith)
step-RowChange unexpired expired (verifies now token code) k s = change_verifies now token code k s
step-RowChange unexpired expired (resolves approve id username) k s =
    change_resolves approve id username k s
step-RowChange unexpired expired (purges now) k s = kept refl
