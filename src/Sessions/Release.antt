-- ===== src/Sessions/Release.antt =====
-- nexus_server/devices.go: what releases a session that is held.
use phazechat_world.Prelude.{
  ℕ, ◌≤◌, ◌<◌, ◌≡◌, refl, ap, List, [], ◌∷◌, ◌++◌, any, trim_space, subst, ◌⊎◌, inl, inr, true,
  false, not, ◌&&◌, some, arith, eq_iff, String, eqb, ◌==◌, Bool-cases,
}
use phazechat_world.Sessions.Devices.{
  latest_challenge, approve_device_challenge, judge_code, lookup_device_challenge,
}
use phazechat_world.Sessions.{Challenge, Store}
use phazechat_world.Sessions.Operations.{Op, verifies, resolves}

-- The newest challenge on a token: one that no challenge before it is on.
abbrev pub IsNewest : String → Challenge → List Challenge → Type 0
IsNewest token c cs =
    (before : List Challenge) × (after : List Challenge) × (cs ≡ before ++ c ∷ after)
    × (any (λ d. d.session_token == token) before ≡ false)
    × (c.session_token ≡ token)

-- The two ways out of the held state: the code of the newest challenge on the token, while that
-- challenge is not consumed, lasts and has less than five wrong attempts; or an approval by the
-- account of a challenge on the token that is not consumed.
pub data IsRelease (token : String) (op : Op) (s : Store) : Type 0 where
  by_code :
      (now : ℕ) (code : String) (c : Challenge)
      → op ≡ verifies now token code
      → IsNewest token c s.challenges
      → c.code ≡ trim_space code
      → c.consumed ≡ false
      → now ≤ c.expires_at
      → c.attempts < 5
      → IsRelease token op s
  by_owner :
      (id : ℕ) (username : String)
      → op ≡ resolves true id username
      → any
          (λ c. eqb c.id id && c.username == username && c.session_token == token && not c.consumed)
          s.challenges
        ≡ true
      → IsRelease token op s

pub latest_challenge-IsNewest :
    (token : String) (cs : List Challenge) (c : Challenge)
    → latest_challenge token cs ≡ some c
    → IsNewest token c cs
unfolding latest_challenge
latest_challenge-IsNewest token [] c e = absurd (ground (arith, e))
latest_challenge-IsNewest token (d ∷ cs) c e = elim (Bool-cases (d.session_token == token)) [
  | inl same ↦
      let q : d ≡ c = ground (arith, e, same) in
      (
        [],
        cs,
        ap (λ x. x ∷ cs) q,
        refl,
        subst (λ x. x.session_token ≡ token) q ((eq_iff d.session_token token).0 same),
      )
  | inr other ↦
      let (before, after, split, none', on) =
        latest_challenge-IsNewest token cs c (ground (arith, e, other)) in
      (d ∷ before, after, ap (λ l. d ∷ l) split, ground (arith, other, none'), on)
]

pub lookup_device_challenge-any :
    (id : ℕ) (username : String) (cs : List Challenge) (c : Challenge)
    → lookup_device_challenge id username cs ≡ some c
    → any
        (λ d.
          eqb d.id id
          && d.username == username
          && d.session_token == c.session_token
          && not d.consumed)
        cs
      ≡ true
unfolding lookup_device_challenge
lookup_device_challenge-any id username [] c e = absurd (ground (arith, e))
lookup_device_challenge-any id username (d ∷ cs) c e =
    ground (
      arith,
      e,
      eq_iff d.session_token c.session_token,
      lookup_device_challenge-any id username cs c,
    )

-- No session changes, or the code is right, the challenge could still be met, and it is approved.
pub judge_code_cases :
    (now : ℕ) (token code : String) (c : Challenge) (s : Store)
    → ((judge_code now token code c s).1.sessions ≡ s.sessions)
      ⊎ ((c.code ≡ trim_space code)
          × (c.consumed ≡ false)
          × (now ≤ c.expires_at)
          × (c.attempts < 5)
          × ((judge_code now token code c s).1
              ≡ approve_device_challenge c.id c.username c.device_id token s))
unfolding judge_code
judge_code_cases now token code c s = ground (arith, eq_iff (trim_space code) c.code)
