-- ===== src/Sessions/Spent.antt =====
-- nexus_server/main.go: what any operation on the session tables leaves of the row of a reset token.
use phazechat_world.Prelude.{
  ℕ, ◌≡◌, refl, sym, subst, inl, inr, Bool, true, false, not, ◌||◌, Option, none, some, List, [],
  ◌∷◌, arith, eq_iff, String, Map, lookup, insert, lookup-insert, lookup-modify, eqb, ◌==◌,
  Bool-cases, Option-cases,
}
use phazechat_world.Sessions.{
  Reset, Challenge, Store, insert_session, issue_session_token, issue_admin_session_token,
  mark_session_pending_device, revoke_session, revoke_session_by_token, change_password_sessions,
}
use phazechat_world.Sessions.Qr.{create_qr_login, approve_row, approve_qr_login}
use phazechat_world.Sessions.PasswordReset.{commit_reset, create_password_reset}
use phazechat_world.Sessions.Devices.{
  create_device_challenge, remember_device, approve_device_challenge, deny_device_challenge,
  judge_code, latest_challenge, lookup_device_challenge, verify_device_challenge, settle_challenge,
  resolve_device_challenge, purge_expired_device_challenges,
}
use phazechat_world.Sessions.Operations.{
  Op, issues, issues_admin, holds, revokes, revokes_own, changes_password, creates_qr, approves_qr,
  creates_reset, commits_reset, challenges, verifies, resolves, purges, step, run,
}

-- A token has a row, and a spent one where the flag is set.
abbrev pub Marked : Bool → Option Reset → Type 0
Marked b none = ⊥
Marked b (some r) = r.used || not b ≡ true

Marked-commit :
    (b : Bool) (token other username h : String) (s : Store)
    → Marked b (lookup token s.resets)
    → Marked b (lookup token (commit_reset other username h s).resets)
unfolding commit_reset
Marked-commit b token other username h s k =
    ground (arith, k, lookup-modify (λ r. record r { used = true }) other token s.resets)

Marked-insert :
    (b : Bool) (token other : String) (r : Reset) (m : Map Reset)
    → lookup other m ≡ none
    → Marked b (lookup token m)
    → Marked b (lookup token (insert other r m))
Marked-insert b token other r m e k =
    rw (lookup-insert other token r m) (elim (Bool-cases (other == token)) [
      | inl same ↦
          absurd
            (subst (Marked b) (subst (λ t. lookup t m ≡ none) ((eq_iff other token).0 same) e) k)
      | inr other' ↦ rw other' k
    ])

Marked-create :
    (unexpired expired : ℕ → ℕ → Bool) (b : Bool) (token : String) (now : ℕ) (rand : Option String)
    (username : String) (s : Store)
    → Marked b (lookup token s.resets)
    → Marked b (lookup token (step unexpired expired (creates_reset now rand username) s).resets)
unfolding step create_password_reset
Marked-create unexpired expired b token now none username s k = k
Marked-create unexpired expired b token now (some t) username s k =
    elim (Option-cases (lookup t s.resets)) [
      | inl e ↦ rw (e, create_password_reset) (Marked-insert b token t _ s.resets e k)
      | inr (r, e) ↦ rw (e, create_password_reset) k
    ]

issue-resets :
    (now : ℕ) (rand : Option String) (username device : String) (s : Store)
    → (issue_session_token now rand username device s).2.resets ≡ s.resets
unfolding issue_session_token insert_session
issue-resets now none username device s = refl
issue-resets now (some token) username device s = ground arith

issue_admin-resets :
    (now : ℕ) (rand : Option String) (username : String) (s : Store)
    → (issue_admin_session_token now rand username s).2.resets ≡ s.resets
unfolding issue_admin_session_token insert_session
issue_admin-resets now none username s = refl
issue_admin-resets now (some token) username s = ground arith

approve-resets :
    (unexpired : ℕ → ℕ → Bool) (now : ℕ) (rand : Option String) (token username device : String)
    (s : Store)
    → (approve_qr_login unexpired now rand token username device s).1.resets ≡ s.resets
unfolding approve_qr_login approve_row
approve-resets unexpired now rand token username device s =
    ground (arith, issue-resets now rand username device s)

create_qr-resets :
    (unexpired expired : ℕ → ℕ → Bool) (now : ℕ) (rand : Option String) (s : Store)
    → (step unexpired expired (creates_qr now rand) s).resets ≡ s.resets
unfolding step create_qr_login
create_qr-resets unexpired expired now none s = refl
create_qr-resets unexpired expired now (some token) s = ground arith

challenge-resets :
    (now : ℕ) (rand : Option String) (username device_id token label ip : String) (s : Store)
    → (create_device_challenge now rand username device_id token label ip s).1.resets ≡ s.resets
unfolding create_device_challenge
challenge-resets now none username device_id token label ip s = refl
challenge-resets now (some code) username device_id token label ip s = refl

approval-resets :
    (id : ℕ) (username device_id token : String) (s : Store)
    → (approve_device_challenge id username device_id token s).resets ≡ s.resets
unfolding approve_device_challenge remember_device
approval-resets id username device_id token s = ground arith

judge-resets :
    (now : ℕ) (token code : String) (c : Challenge) (s : Store)
    → (judge_code now token code c s).1.resets ≡ s.resets
unfolding judge_code
judge-resets now token code c s =
    ground (arith, approval-resets c.id c.username c.device_id token s)

verify-resets :
    (now : ℕ) (token code : String) (s : Store)
    → (verify_device_challenge now token code s).1.resets ≡ s.resets
unfolding verify_device_challenge
verify-resets now token code s = elim (Option-cases (latest_challenge token s.challenges)) [
  | inl e ↦ rw (e, verify_device_challenge) refl
  | inr (c, e) ↦ rw (e, verify_device_challenge) (judge-resets now token code c s)
]

settle-resets :
    (approve : Bool) (id : ℕ) (username : String) (c : Challenge) (s : Store)
    → (settle_challenge approve id username c s).resets ≡ s.resets
unfolding settle_challenge deny_device_challenge
settle-resets true id username c s = approval-resets id username c.device_id c.session_token s
settle-resets false id username c s = refl

resolve-resets :
    (approve : Bool) (id : ℕ) (username : String) (s : Store)
    → (resolve_device_challenge approve id username s).1.resets ≡ s.resets
unfolding resolve_device_challenge
resolve-resets approve id username s = elim (Bool-cases (username == "" || eqb id 0)) [
  | inl e ↦ rw (e, resolve_device_challenge) refl
  | inr e ↦
      rw (e, resolve_device_challenge)
        (elim (Option-cases (lookup_device_challenge id username s.challenges)) [
          | inl missing ↦ rw (missing, resolve_device_challenge) refl
          | inr (c, found) ↦
              rw (found, resolve_device_challenge) (settle-resets approve id username c s)
        ])
]

-- No operation takes a token's row away or makes a spent one good again.
step-Marked :
    (unexpired expired : ℕ → ℕ → Bool) (b : Bool) (token : String) (op : Op) (s : Store)
    → Marked b (lookup token s.resets)
    → Marked b (lookup token (step unexpired expired op s).resets)
unfolding step mark_session_pending_device revoke_session revoke_session_by_token
    change_password_sessions purge_expired_device_challenges
step-Marked unexpired expired b token (issues now rand username device) s k =
    rw (issue-resets now rand username device s) k
step-Marked unexpired expired b token (issues_admin now rand username) s k =
    rw (issue_admin-resets now rand username s) k
step-Marked unexpired expired b token (holds t) s k = k
step-Marked unexpired expired b token (revokes t) s k = k
step-Marked unexpired expired b token (revokes_own t username) s k = k
step-Marked unexpired expired b token (changes_password username t) s k = k
step-Marked unexpired expired b token (creates_qr now rand) s k =
    subst (λ m. Marked b (lookup token m)) (sym (create_qr-resets unexpired expired now rand s)) k
step-Marked unexpired expired b token (approves_qr now rand t username device) s k =
    rw (approve-resets unexpired now rand t username device s) k
step-Marked unexpired expired b token (creates_reset now rand username) s k =
    Marked-create unexpired expired b token now rand username s k
step-Marked unexpired expired b token (commits_reset t username h) s k =
    Marked-commit b token t username h s k
step-Marked unexpired expired b token (challenges now rand username device_id t label ip) s k =
    rw (challenge-resets now rand username device_id t label ip s) k
step-Marked unexpired expired b token (verifies now t code) s k = rw (verify-resets now t code s) k
step-Marked unexpired expired b token (resolves approve id username) s k =
    rw (resolve-resets approve id username s) k
step-Marked unexpired expired b token (purges now) s k = k

pub run-Marked :
    (unexpired expired : ℕ → ℕ → Bool) (b : Bool) (token : String) (ops : List Op) (s : Store)
    → Marked b (lookup token s.resets)
    → Marked b (lookup token (run unexpired expired ops s).resets)
unfolding run
run-Marked unexpired expired b token [] s k = k
run-Marked unexpired expired b token (op ∷ ops) s k =
    run-Marked unexpired expired b token ops (step unexpired expired op s)
      (step-Marked unexpired expired b token op s k)
