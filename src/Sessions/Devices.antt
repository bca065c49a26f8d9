-- ===== src/Sessions/Devices.antt =====
-- nexus_server/devices.go: a sign-in from a new device is held until a code from the account's
-- mail, or another session of the account, lets it through.
use phazechat_world.Prelude.{
  ℕ, ◌+◌, ◌*◌, Bool, true, false, not, ◌&&◌, ◌||◌, Option, none, some, List, [], ◌∷◌, String,
  modify, keep, any, ltb, leb, eqb, ◌==◌, if◌then◌else◌, trim_space,
}
use phazechat_world.Sessions.{Challenge, Store, second}

abbrev pub device_challenge_ttl : ℕ
device_challenge_ttl = 15 * 60 * second

abbrev pub max_device_challenge_attempts : ℕ
max_device_challenge_attempts = 5

pub data ChallengeError : Type 0 where
  no_challenge challenge_expired too_many_attempts bad_code : ChallengeError

unfoldable pub is_known_device : String → String → Store → Bool
is_known_device username device_id s =
    if device_id == ""
    then false
    else any (λ d. d.0 == username && d.1 == device_id) s.known_devices

-- The dates, the label and the address of a known device are not kept.
unfoldable pub remember_device : String → String → Store → Store
remember_device username device_id s =
    if device_id == "" || any (λ d. d.0 == username && d.1 == device_id) s.known_devices
    then s
    else record s { known_devices = (username, device_id) ∷ s.known_devices }

-- The row that `createDeviceChallenge` adds; the messages it sends are not modelled. `code` is the
-- result of `randDigits(6)`.
unfoldable pub create_device_challenge :
    ℕ → Option String → String → String → String → String → String → Store → ℕ × Store
create_device_challenge now none username device_id token label ip s = (0, s)
create_device_challenge now (some code) username device_id token label ip s = (
  s.next_id,
  record s {
    challenges =
        record {
          id = s.next_id;
          username = username;
          device_id = device_id;
          session_token = token;
          code = code;
          label = label;
          ip = ip;
          attempts = 0;
          consumed = false;
          approved = false;
          expires_at = now + device_challenge_ttl;
        }
        ∷ s.challenges;
    next_id = s.next_id + 1;
  },
)

-- `UPDATE device_challenges SET … WHERE id = ?`
unfoldable pub update_challenge : (Challenge → Challenge) → ℕ → List Challenge → List Challenge
update_challenge f id [] = []
update_challenge f id (c ∷ cs) = (if eqb c.id id then f c else c) ∷ update_challenge f id cs

-- `… WHERE session_token = ? ORDER BY id DESC LIMIT 1`
unfoldable pub latest_challenge : String → List Challenge → Option Challenge
latest_challenge token [] = none
latest_challenge token (c ∷ cs) =
    if c.session_token == token then some c else latest_challenge token cs

unfoldable pub approve_device_challenge : ℕ → String → String → String → Store → Store
unfolding remember_device
approve_device_challenge id username device_id token s =
    remember_device username device_id (record s {
      challenges =
          update_challenge (λ c. record c { consumed = true; approved = true }) id s.challenges;
      sessions = modify (λ r. record r { pending_device = false }) token s.sessions;
    })

unfoldable pub deny_device_challenge : ℕ → String → Store → Store
deny_device_challenge id token s = record s {
  challenges =
      update_challenge (λ c. record c { consumed = true; approved = false }) id s.challenges;
  sessions = modify (λ r. record r { revoked = true }) token s.sessions;
}

pub data Verdict : Type 0 where
  verified : String → Verdict
  refused : ChallengeError → Verdict

-- `verifyDeviceChallenge` once the row is read.
unfoldable pub judge_code : ℕ → String → String → Challenge → Store → Verdict × Store
judge_code now token code c s =
    if c.consumed
    then (refused no_challenge, s)
    else if ltb c.expires_at now
    then (refused challenge_expired, s)
    else if leb max_device_challenge_attempts c.attempts
    then (refused too_many_attempts, s)
    else if trim_space code == c.code
    then (verified c.username, approve_device_challenge c.id c.username c.device_id token s)
    else (
      refused bad_code,
      record s {
        challenges =
            update_challenge (λ d. record d { attempts = d.attempts + 1 }) c.id s.challenges;
      },
    )

unfoldable pub verify_device_challenge : ℕ → String → String → Store → Verdict × Store
unfolding judge_code
verify_device_challenge now token code s = elim (latest_challenge token s.challenges) [
  | none ↦ (refused no_challenge, s)
  | some c ↦ judge_code now token code c s
]

-- `… WHERE id = ? AND username = ?`; a consumed challenge is not found.
unfoldable pub lookup_device_challenge : ℕ → String → List Challenge → Option Challenge
lookup_device_challenge id username [] = none
lookup_device_challenge id username (c ∷ cs) =
    if eqb c.id id && c.username == username
    then (if c.consumed then none else some c)
    else lookup_device_challenge id username cs

unfoldable pub settle_challenge : Bool → ℕ → String → Challenge → Store → Store
unfolding approve_device_challenge deny_device_challenge
settle_challenge true id username c s =
    approve_device_challenge id username c.device_id c.session_token s
settle_challenge false id username c s = deny_device_challenge id c.session_token s

-- The "device_approve" and "device_deny" messages. The flag says that the challenge was found.
unfoldable pub resolve_device_challenge : Bool → ℕ → String → Store → Bool × Store
unfolding settle_challenge
resolve_device_challenge approve id username s =
    if username == "" || eqb id 0
    then (false, s)
    else elim (lookup_device_challenge id username s.challenges) [
      | none ↦ (false, s)
      | some c ↦ (true, settle_challenge approve id username c s)
    ]

-- `DELETE … WHERE consumed = 1 OR expires_at < CURRENT_TIMESTAMP`: the driver stores a time as a
-- text, and `expired` is SQLite's comparison of that text with the one for now.
unfoldable pub purge_expired_device_challenges : (ℕ → ℕ → Bool) → ℕ → Store → Store
purge_expired_device_challenges expired now s = record s {
  challenges = keep (λ c. not (c.consumed || expired c.expires_at now)) s.challenges;
}
