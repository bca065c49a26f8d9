-- ===== src/Sessions/Lifetime.antt =====
-- nexus_server/session.go and its callers over any sequence of operations: what a token can come
-- to mean.
use phazechat_world.Prelude.{
  ℕ, ◌≤◌, ◌≡◌, refl, subst, ◌⊎◌, Bool, inl, inr, true, false, Option, none, some, List, [], ◌∷◌,
  arith, String, lookup,
}
use phazechat_world.Sessions.{Session, Store, session_state, session_username}
use phazechat_world.Sessions.Operations.{Op, step, run}
use phazechat_world.Sessions.Release.{IsRelease}
use phazechat_world.Sessions.Changes.{RowChange, kept, added, ended, held, freed, step-RowChange}

-- The row of a session that was there before: same account, same end, and revoked if it was.
abbrev Keeps : Session → Option Session → Type 0
Keeps r none = ⊥
Keeps r (some q) =
    (q.username ≡ r.username)
    × (q.expires_at ≡ r.expires_at)
    × (r.revoked ≡ true → q.revoked ≡ true)

Keeps-change :
    (P : Type 0) (r : Session) (o o' : Option Session) → RowChange P o o' → Keeps r o → Keeps r o'
Keeps-change P r o o' (kept e) k = rw e k
Keeps-change P r o o' (added e) k = absurd (subst (Keeps r) e k)
Keeps-change P r o o' (ended q e e') k =
    rw e' (let h = subst (Keeps r) e k in (h.0, h.1, λ _. refl))
Keeps-change P r o o' (held q e e') k = rw e' (subst (Keeps r) e k)
Keeps-change P r o o' (freed q e e' p) k = rw e' (subst (Keeps r) e k)

run-Keeps :
    (unexpired expired : ℕ → ℕ → Bool) (ops : List Op) (token : String) (r : Session) (s : Store)
    → Keeps r (lookup token s.sessions)
    → Keeps r (lookup token (run unexpired expired ops s).sessions)
unfolding run
run-Keeps unexpired expired [] token r s k = k
run-Keeps unexpired expired (op ∷ ops) token r s k =
    run-Keeps unexpired expired ops token r (step unexpired expired op s) (
      Keeps-change _ r (lookup token s.sessions)
        (lookup token (step unexpired expired op s).sessions)
        (step-RowChange unexpired expired op token s) k)

Keeps-self : (r : Session) (o : Option Session) → o ≡ some r → Keeps r o
Keeps-self r o e = rw e (refl, refl, λ h. h)

state-Keeps :
    (now : ℕ) (token : String) (r : Session) (s : Store)
    → Keeps r (lookup token s.sessions)
    → (session_username now token s ≡ "")
      ⊎ ((session_username now token s ≡ r.username) × (r.revoked ≡ false) × (now ≤ r.expires_at))
unfolding session_username session_state
state-Keeps now token r s k = ground arith

-- Whatever operations follow, in whatever order and with whatever clock, the token of a session
-- authenticates the session's own account or nobody; and it authenticates nobody once the session
-- was revoked, or at a time past its end.
pub session_username-run :
    (unexpired expired : ℕ → ℕ → Bool) (ops : List Op) (now : ℕ) (token : String) (r : Session)
    (s : Store)
    → lookup token s.sessions ≡ some r
    → (session_username now token (run unexpired expired ops s) ≡ "")
      ⊎ ((session_username now token (run unexpired expired ops s) ≡ r.username)
          × (r.revoked ≡ false)
          × (now ≤ r.expires_at))
session_username-run unexpired expired ops now token r s e =
    state-Keeps now token r (run unexpired expired ops s)
      (run-Keeps unexpired expired ops token r s (Keeps-self r (lookup token s.sessions) e))

-- A session that is held or revoked.
abbrev pub IsHeld : Option Session → Type 0
IsHeld none = ⊥
IsHeld (some r) = (r.pending_device ≡ true) ⊎ (r.revoked ≡ true)

IsHeld-change : (P : Type 0) (o o' : Option Session) → RowChange P o o' → IsHeld o → IsHeld o' ⊎ P
IsHeld-change P o o' (kept e) h = inl (rw e h)
IsHeld-change P o o' (added e) h = absurd (subst IsHeld e h)
IsHeld-change P o o' (ended q e e') h = inl (rw e' (inr refl))
IsHeld-change P o o' (held q e e') h = inl (rw e' (inl refl))
IsHeld-change P o o' (freed q e e' p) h = inr p

-- A held session authenticates nobody.
session_username_held :
    (now : ℕ) (token : String) (s : Store)
    → IsHeld (lookup token s.sessions)
    → session_username now token s ≡ ""
unfolding session_username session_state
session_username_held now token s h = ground arith

-- A session held for device approval authenticates nobody after an operation either, unless that
-- operation enters, blanks around it ignored, the code of the newest challenge on this very token,
-- not consumed, not past its end and with less than five wrong attempts, or is an approval by the
-- account of a challenge on this token that is not consumed.
pub session_username-step_held :
    (unexpired expired : ℕ → ℕ → Bool) (op : Op) (now : ℕ) (token : String) (s : Store)
    → IsHeld (lookup token s.sessions)
    → (session_username now token s ≡ "")
      × ((session_username now token (step unexpired expired op s) ≡ "") ⊎ IsRelease token op s)
session_username-step_held unexpired expired op now token s h = (
  session_username_held now token s h,
  elim (IsHeld-change _ (lookup token s.sessions)
      (lookup token (step unexpired expired op s).sessions)
      (step-RowChange unexpired expired op token s) h) [
        | inl still ↦ inl (session_username_held now token (step unexpired expired op s) still)
        | inr released ↦ inr released
      ],
)
