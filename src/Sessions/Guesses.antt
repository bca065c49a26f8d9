-- ===== src/Sessions/Guesses.antt =====
-- nexus_server/devices.go: how many codes a new device may try.
use mathlib.Core.Option
use phazechat_world.Prelude.{
  ℕ, ◌+◌, ◌≤◌, min, ◌≡◌, refl, subst, ◌∙◌, ◌⊎◌, inl, inr, false, Option, none, some, List, [], ◌∷◌,
  arith, String, length, eqb, ◌==◌, if◌then◌else◌, Option-cases, trim_space,
}
use phazechat_world.Sessions.{Challenge, Store}
use phazechat_world.Sessions.Devices.{
  Verdict, verified, refused, update_challenge, latest_challenge, judge_code,
  verify_device_challenge,
}

-- Codes tried one after the other, each at a time.
unfoldable pub try_codes : String → List (ℕ × String) → Store → Store
try_codes token [] s = s
try_codes token ((now, code) ∷ gs) s =
    try_codes token gs (verify_device_challenge now token code s).1

latest-update_challenge :
    (f : Challenge → Challenge) (id : ℕ) (token : String) (cs : List Challenge)
    → ((c : Challenge) → (f c).session_token ≡ c.session_token)
    → latest_challenge token (update_challenge f id cs)
      ≡ Option.map (λ c. if eqb c.id id then f c else c) (latest_challenge token cs)
unfolding latest_challenge update_challenge
latest-update_challenge f id token [] h = refl
latest-update_challenge f id token (c ∷ cs) h =
    ground (arith, h c, latest-update_challenge f id token cs h)

-- The challenge of the token, with at least `n` attempts made or already consumed.
abbrev Spent : ℕ → String → ℕ → Option Challenge → Type 0
Spent n code end none = ⊥
Spent n code end (some c) =
    (c.consumed ≡ false) × (c.code ≡ code) × (c.expires_at ≡ end) × (n ≤ c.attempts)

-- Wrong codes, tried while the challenge lasts.
abbrev pub AreWrong : String → ℕ → List (ℕ × String) → Type 0
AreWrong code end [] = Unit {0}
AreWrong code end ((now, guess) ∷ gs) =
    ((trim_space guess == code) ≡ false) × (now ≤ end) × AreWrong code end gs

abbrev pub IsRefused : Verdict → Type 0
IsRefused (verified u) = ⊥
IsRefused (refused e) = Unit {0}

-- One wrong code while the challenge lasts.
judge_wrong :
    (n now end : ℕ) (token guess code : String) (c : Challenge) (s : Store)
    → Spent n code end (some c)
    → (trim_space guess == code) ≡ false
    → now ≤ end
    → ((judge_code now token guess c s).1.sessions ≡ s.sessions)
      × (((judge_code now token guess c s).1 ≡ s) × (5 ≤ c.attempts)
          ⊎ ((judge_code now token guess c s).1 ≡ record s {
            challenges =
                update_challenge (λ d. record d { attempts = d.attempts + 1 }) c.id s.challenges;
          }))
unfolding judge_code
judge_wrong n now end token guess code c s p w h = ground arith

Spent-more :
    (n id : ℕ) (code : String) (end : ℕ) (c : Challenge)
    → Spent n code end (some c)
    → Spent
        (min 5 (n + 1))
        code
        end
        (some (if eqb c.id c.id then record c { attempts = c.attempts + 1 } else c))
Spent-more n id code end c p = ground arith

judged-Spent :
    (n now end : ℕ) (token guess code : String) (c : Challenge) (s : Store)
    → latest_challenge token s.challenges ≡ some c
    → Spent n code end (some c)
    → (trim_space guess == code) ≡ false
    → now ≤ end
    → Spent
        (min 5 (n + 1))
        code
        end
        (latest_challenge token (judge_code now token guess c s).1.challenges)
judged-Spent n now end token guess code c s e p w h =
    elim (judge_wrong n now end token guess code c s p w h).1 [
      | inl (same, many) ↦ rw same (rw e (p.0, p.1, p.2, omega arith))
      | inr more ↦ rw more (
          rw
            (latest-update_challenge (λ d. record d { attempts = d.attempts + 1 }) c.id token
              s.challenges (λ d. refl))
            (rw e (Spent-more n 0 code end c p)))
    ]

verify_wrong :
    (n now end : ℕ) (token guess code : String) (s : Store)
    → Spent n code end (latest_challenge token s.challenges)
    → (trim_space guess == code) ≡ false
    → now ≤ end
    → ((verify_device_challenge now token guess s).1.sessions ≡ s.sessions)
      × Spent
          (min 5 (n + 1))
          code
          end
          (latest_challenge token (verify_device_challenge now token guess s).1.challenges)
unfolding verify_device_challenge
verify_wrong n now end token guess code s p w h =
    elim (Option-cases (latest_challenge token s.challenges)) [
      | inl none' ↦ absurd (subst (Spent n code end) none' p)
      | inr (c, e) ↦
          let q = subst (Spent n code end) e p in
          rw (e, verify_device_challenge)
            (
              (judge_wrong n now end token guess code c s q w h).0,
              judged-Spent n now end token guess code c s e q w h,
            )
    ]

try_wrong :
    (n end : ℕ) (token code : String) (gs : List (ℕ × String)) (s : Store)
    → Spent n code end (latest_challenge token s.challenges)
    → AreWrong code end gs
    → ((try_codes token gs s).sessions ≡ s.sessions)
      × Spent
          (min 5 (n + length gs))
          code
          end
          (latest_challenge token (try_codes token gs s).challenges)
unfolding try_codes
try_wrong n end token code [] s p w = (refl, Spent-less n (latest_challenge token s.challenges) p)
  where
    Spent-less :
        (k : ℕ) (o : Option Challenge) → Spent k code end o → Spent (min 5 (k + 0)) code end o
    Spent-less k none q = q
    Spent-less k (some c) q = (q.0, q.1, q.2, omega arith)
try_wrong n end token code ((now, guess) ∷ gs) s p w =
    let (same, q) = verify_wrong n now end token guess code s p w.0 w.1 in
    let (same', q') =
      try_wrong (min 5 (n + 1)) end token code gs (verify_device_challenge now token guess s).1 q
        w.2 in
    (
      same' ∙ same,
      subst
          (λ k. Spent k code end (
            latest_challenge token
              (try_codes token gs (verify_device_challenge now token guess s).1).challenges))
          (omega arith) q',
    )

Spent-IsRefused :
    (now end : ℕ) (token guess code : String) (s : Store)
    → Spent 5 code end (latest_challenge token s.challenges)
    → IsRefused (verify_device_challenge now token guess s).0
      × ((verify_device_challenge now token guess s).1 ≡ s)
unfolding verify_device_challenge judge_code
Spent-IsRefused now end token guess code s p = ground arith

-- Once five or more wrong codes have been tried against a session's latest challenge while it
-- lasted, no session has changed, and every further code, the right one too, is refused at every
-- time and changes nothing.
pub verify_device_challenge-try_codes :
    (token : String) (c : Challenge) (gs : List (ℕ × String)) (s : Store)
    → latest_challenge token s.challenges ≡ some c
    → c.consumed ≡ false
    → AreWrong c.code c.expires_at gs
    → 5 ≤ length gs
    → ((try_codes token gs s).sessions ≡ s.sessions)
      × ((now : ℕ) (code : String)
          → IsRefused (verify_device_challenge now token code (try_codes token gs s)).0
            × ((verify_device_challenge now token code (try_codes token gs s)).1
                ≡ try_codes token gs s))
verify_device_challenge-try_codes token c gs s e open' w many =
    let (same, p) =
      try_wrong 0 c.expires_at token c.code gs s (rw e (open', refl, refl, omega arith)) w in
    (
      same,
      λ now code. Spent-IsRefused now c.expires_at token code c.code (try_codes token gs s) (
          subst
            (λ k.
              Spent k c.code c.expires_at
                (latest_challenge token (try_codes token gs s).challenges))
            (omega arith) p),
    )
