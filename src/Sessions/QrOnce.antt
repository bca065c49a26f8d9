-- ===== src/Sessions/QrOnce.antt =====
-- nexus_server/main.go: a QR code can be approved once.
use phazechat_world.Prelude.{
  ℕ, ◌+◌, ◌*◌, ◌≡◌, refl, sym, ap, subst, ◌∙◌, Bool, Bool-cases, ◌≢◌, inl, inr, true, false, Option,
  none, some, arith, eq_iff, eq_refl, String, lookup, lookup-insert, leb, if◌then◌else◌,
}
use phazechat_world.Sessions.{
  QrToken, Store, new_session, insert_session, issue_session_token, session_username, hour,
}
use phazechat_world.Sessions.Row.{session_of, session_username_of}
use phazechat_world.Sessions.Qr.{QrCheck, is_open, approve_row, approve_qr_login, check_qr_login}

issued_qr_tokens :
    (now : ℕ) (rand : Option String) (username device : String) (s : Store)
    → (issue_session_token now rand username device s).2.qr_tokens ≡ s.qr_tokens
unfolding issue_session_token insert_session
issued_qr_tokens now none username device s = refl
issued_qr_tokens now (some rand) username device s = ground arith

issued_row :
    (now : ℕ) (rand username device : String) (s : Store)
    → (issue_session_token now (some rand) username device s).1 ≡ true
    → lookup rand (issue_session_token now (some rand) username device s).2.sessions
      ≡ some (new_session username device (now + 30 * 24 * hour))
unfolding issue_session_token insert_session
issued_row now rand username device s ok = ground (
  arith,
  ok,
  lookup-insert rand rand (new_session username device (now + 30 * 24 * hour)) s.sessions,
  eq_refl rand,
)

issued_token :
    (now : ℕ) (rand username device : String) (s : Store)
    → (issue_session_token now (some rand) username device s).0 ≡ rand
unfolding issue_session_token
issued_token now rand username device s = refl

approved_row : QrToken → String → String → String → QrToken
approved_row q username session device = record q {
  username = username;
  session_token = session;
  device_info = device;
  approved = true;
}

approve_row_lem :
    (unexpired : ℕ → ℕ → Bool) (now : ℕ) (token username session device : String) (q : QrToken)
    (s : Store)
    → (approve_row unexpired now token username session device (some q) s).0 ≡ true
    → (q.approved ≡ false)
      × (unexpired q.expires_at now ≡ true)
      × (lookup token
            (approve_row unexpired now token username session device (some q) s).1.qr_tokens
          ≡ some (approved_row q username session device))
      × ((approve_row unexpired now token username session device (some q) s).1.sessions
          ≡ s.sessions)
unfolding approve_row is_open approved_row
approve_row_lem unexpired now token username session device q s ok = ground (
  arith,
  ok,
  eq_refl token,
  lookup-insert token token
      (record q {
        username = username;
        session_token = session;
        device_info = device;
        approved = true;
      })
      s.qr_tokens,
)

-- An approval that succeeds, by its two steps.
approve_qr_login-true :
    (unexpired : ℕ → ℕ → Bool) (now : ℕ) (rand : Option String) (token username device : String)
    (s : Store)
    → (approve_qr_login unexpired now rand token username device s).0 ≡ true
    → let (session, ok, s') = issue_session_token now rand username device s in
      (ok ≡ true)
      × (approve_qr_login unexpired now rand token username device s
          ≡ approve_row unexpired now token username session device (lookup token s'.qr_tokens) s')
unfolding approve_qr_login
approve_qr_login-true unexpired now rand token username device s e =
    elim (Bool-cases (issue_session_token now rand username device s).1) [
      | inl ok ↦ (ok, rw ok refl)
      | inr bad ↦ cc (rw bad at e)
    ]

-- What an approval that succeeds leaves in the tables.
approved_tables :
    (unexpired : ℕ → ℕ → Bool) (now : ℕ) (rand token username device : String) (q : QrToken)
    (s : Store)
    → lookup token s.qr_tokens ≡ some q
    → (approve_qr_login unexpired now (some rand) token username device s).0 ≡ true
    → let t = (approve_qr_login unexpired now (some rand) token username device s).1 in
      (q.approved ≡ false)
      × (unexpired q.expires_at now ≡ true)
      × (lookup token t.qr_tokens ≡ some (approved_row q username rand device))
      × (lookup rand t.sessions ≡ some (new_session username device (now + 30 * 24 * hour)))
approved_tables unexpired now rand token username device q s found e =
    let s' = (issue_session_token now (some rand) username device s).2 in
    let (ok, steps) = approve_qr_login-true unexpired now (some rand) token username device s e in
    let row : lookup token s'.qr_tokens ≡ some q =
      (ap (lookup token) (issued_qr_tokens now (some rand) username device s) ∙ found) in
    let whole : approve_qr_login unexpired now (some rand) token username device s
        ≡ approve_row unexpired now token username rand device (some q) s' =
      (steps
        ∙ subst
            (λ r.
              approve_row unexpired now token username
                (issue_session_token now (some rand) username device s).0 device
                (lookup token s'.qr_tokens) s'
              ≡ approve_row unexpired now token username r device (lookup token s'.qr_tokens) s')
            (issued_token now rand username device s) refl
        ∙ ap (λ o. approve_row unexpired now token username rand device o s') row) in
    let (fresh, open', marked, kept') =
      approve_row_lem unexpired now token username rand device q s'
        (ap (λ o. o.0) (sym whole) ∙ e) in
    subst
      (λ o.
        (q.approved ≡ false)
        × (unexpired q.expires_at now ≡ true)
        × (lookup token o.1.qr_tokens ≡ some (approved_row q username rand device))
        × (lookup rand o.1.sessions ≡ some (new_session username device (now + 30 * 24 * hour))))
      (sym whole)
      (fresh, open', marked, ap (lookup rand) kept' ∙ issued_row now rand username device s ok)

-- What the poll gives for an approved code, at a time.
abbrev pub shown_at : ℕ → ℕ → String → String → QrCheck
shown_at at expires_at username session =
    if leb at expires_at
    then record { username = username; session = session; approved = true; exists = true }
    else record { username = ""; session = ""; approved = false; exists = true }

check_qr_login_of :
    (at : ℕ) (token : String) (q : QrToken) (s : Store)
    → lookup token s.qr_tokens ≡ some q
    → q.approved ≡ true
    → check_qr_login at token s ≡ shown_at at q.expires_at q.username q.session_token
unfolding check_qr_login
check_qr_login_of at token q s e done = ground (arith, e, done)

new_session_lem :
    (now later : ℕ) (token username device : String)
    → token ≢ ""
    → session_of later token (some (new_session username device (now + 30 * 24 * hour)))
      ≡ (if leb later (now + 30 * 24 * hour) then username else "")
unfolding session_of new_session
new_session_lem now later token username device h = ground (arith, eq_iff token "")

check_same :
    (at : ℕ) (token : String) (t t' : Store)
    → t'.qr_tokens ≡ t.qr_tokens
    → check_qr_login at token t' ≡ check_qr_login at token t
unfolding check_qr_login
check_same at token t t' e = rw e

refused_row :
    (unexpired : ℕ → ℕ → Bool) (at : ℕ) (token other session place : String) (q : QrToken)
    (t : Store)
    → q.approved ≡ true
    → approve_row unexpired at token other session place (some q) t ≡ (false, t)
unfolding approve_row is_open
refused_row unexpired at token other session place q t done = ground (arith, done)

refused_again :
    (unexpired : ℕ → ℕ → Bool) (at : ℕ) (again : Option String) (token other place : String)
    (q : QrToken) (t : Store)
    → lookup token t.qr_tokens ≡ some q
    → q.approved ≡ true
    → approve_qr_login unexpired at again token other place t
      ≡ (false, (issue_session_token at again other place t).2)
unfolding approve_qr_login
refused_again unexpired at again token other place q t found done =
    let (session, ok, t') = issue_session_token at again other place t in
    let row : lookup token t'.qr_tokens ≡ some q =
      (ap (lookup token) (issued_qr_tokens at again other place t) ∙ found) in
    elim (Bool-cases ok) [
      | inl e ↦ rw (e, row) (refused_row unexpired at token other session place q t' done)
      | inr e ↦ rw e refl
    ]

again_IsRefused :
    (unexpired : ℕ → ℕ → Bool) (at shown : ℕ) (again : Option String) (token other place : String)
    (q : QrToken) (t : Store)
    → lookup token t.qr_tokens ≡ some q
    → q.approved ≡ true
    → ((approve_qr_login unexpired at again token other place t).0 ≡ false)
      × (check_qr_login shown token (approve_qr_login unexpired at again token other place t).1
          ≡ check_qr_login shown token t)
again_IsRefused unexpired at shown again token other place q t found done =
    let e = refused_again unexpired at again token other place q t found done in
    subst (λ o. (o.0 ≡ false) × (check_qr_login shown token o.1 ≡ check_qr_login shown token t))
      (sym e)
      (
        refl,
        check_same shown token t (issue_session_token at again other place t).2
            (issued_qr_tokens at again other place t),
      )

-- A QR code that is approved with success was not approved before, and its end was not past by the
-- database's comparison; the poll then gives the approver's account and the session that was issued
-- until the code's end, and nobody later; that session authenticates the approver for 30 days from
-- the approval, and nobody later; and a second approval, by whomever and whenever, is refused and
-- leaves what the poll gives.
pub check_qr_login-approve_qr_login :
    (unexpired : ℕ → ℕ → Bool) (now shown later : ℕ) (rand token username device : String)
    (s : Store) (q : QrToken)
    → rand ≢ ""
    → lookup token s.qr_tokens ≡ some q
    → (approve_qr_login unexpired now (some rand) token username device s).0 ≡ true
    → let s' = (approve_qr_login unexpired now (some rand) token username device s).1 in
      (q.approved ≡ false)
      × (unexpired q.expires_at now ≡ true)
      × (check_qr_login shown token s' ≡ shown_at shown q.expires_at username rand)
      × (session_username later rand s'
          ≡ (if leb later (now + 30 * 24 * hour) then username else ""))
      × ((at : ℕ) (again : Option String) (other place : String)
          → ((approve_qr_login unexpired at again token other place s').0 ≡ false)
            × (check_qr_login shown token
                  (approve_qr_login unexpired at again token other place s').1
                ≡ check_qr_login shown token s'))
unfolding approved_row
check_qr_login-approve_qr_login unexpired now shown later rand token username device s q nonempty
      found ok =
    let t = (approve_qr_login unexpired now (some rand) token username device s).1 in
    let (fresh, open', marked, row) =
      approved_tables unexpired now rand token username device q s found ok in
    let q' = approved_row q username rand device in
    (
      fresh,
      open',
      check_qr_login_of shown token q' t marked refl,
      rw (session_username_of later rand t)
          (rw row (new_session_lem now later rand username device nonempty)),
      λ at again other place.
          again_IsRefused unexpired at shown again token other place q' t marked refl,
    )
