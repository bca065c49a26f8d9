-- ===== src/SignIn/Blocking.antt =====
-- Whether the handlers of nexus_server/ws_handlers.go ever reach the count at which they block an
-- address for good.
use phazechat_world.Prelude.{
  ℕ, ◌≡◌, sym, subst, inl, inr, Bool, true, false, Option, none, some, List, arith, eq_iff, eq_refl,
  String, Map, lookup, delete, lookup-insert, lookup-delete, leb, Option-cases,
}
use phazechat_world.AuthTracker.{
  AuthFail, AuthFailTracker, should_auto_block, record_fail, record_success, record_totp_success,
  throttled, bumped, bump, first_fail, auth_ip_window,
}
use phazechat_world.SignIn.{
  World, Message, auto_block, register_conn, auto_join_global_space, fail, sign_in, resume,
}

-- At most five failures.
abbrev is_low : Option AuthFail → Bool
is_low none = true
is_low (some f) = leb f.count 5

-- No address has more than five.
unfoldable pub IsLow : Map AuthFail → Type 0
IsLow m = (ip : String) → is_low (lookup ip m) ≡ true

pub throttled-IsLow :
    (now : ℕ) (ip : String) (m : Map AuthFail)
    → IsLow m
    → IsLow (throttled auth_ip_window 5 now ip m).1
unfolding IsLow throttled
throttled-IsLow now ip m l j = elim (Option-cases (lookup ip m)) [
  | inl e ↦ ground (arith, e, l j)
  | inr (f, e) ↦ ground (arith, e, l j, lookup-delete ip j m)
]

-- An address that is not throttled has room for one more failure.
pub throttled-room :
    (now : ℕ) (ip : String) (m : Map AuthFail)
    → IsLow m
    → (throttled auth_ip_window 5 now ip m).0 ≡ false
    → leb (bumped auth_ip_window now (lookup ip (throttled auth_ip_window 5 now ip m).1)).count 5
      ≡ true
unfolding IsLow throttled bumped first_fail
throttled-room now ip m l n = elim (Option-cases (lookup ip m)) [
  | inl e ↦ ground (arith, e, n, l ip)
  | inr (f, e) ↦ ground (arith, e, n, l ip, lookup-delete ip ip m, eq_refl ip)
]

bump-IsLow :
    (now : ℕ) (ip : String) (m : Map AuthFail)
    → IsLow m
    → leb (bumped auth_ip_window now (lookup ip m)).count 5 ≡ true
    → IsLow (bump auth_ip_window now ip m)
unfolding IsLow bump
bump-IsLow now ip m l r j =
    ground
      (arith, r, l j, lookup-insert ip j (bumped auth_ip_window now (lookup ip m)) m, eq_iff ip j)

delete-IsLow : (ip : String) (m : Map AuthFail) → IsLow m → IsLow (delete ip m)
unfolding IsLow
delete-IsLow ip m l j = ground (arith, l j, lookup-delete ip j m)

-- What the handlers keep: the counts stay low and the same addresses are blocked.
unfoldable pub IsCalm : List String → World → Type 0
IsCalm blocked w = IsLow w.tracker.ip_fails × (w.blocked_ips ≡ blocked)

-- What a handler starts from once the address is not throttled.
unfoldable pub HasRoom : ℕ → String → World → Type 0
HasRoom now ip w = leb (bumped auth_ip_window now (lookup ip w.tracker.ip_fails)).count 5 ≡ true

pub auto_block-IsCalm :
    (now : ℕ) (ip : String) (blocked : List String) (w : World)
    → IsCalm blocked w
    → IsCalm blocked (auto_block now ip w)
unfolding IsCalm IsLow auto_block should_auto_block
auto_block-IsCalm now ip blocked w (l, b) = elim (Option-cases (lookup ip w.tracker.ip_fails)) [
  | inl e ↦ ground (arith, e, l, b)
  | inr (f, e) ↦ ground (arith, e, l ip, b)
]

record_fail-ip_fails :
    (now : ℕ) (ip username : String) (t : AuthFailTracker)
    → (record_fail now ip username t).ip_fails ≡ bump auth_ip_window now ip t.ip_fails
unfolding record_fail
record_fail-ip_fails now ip username t = ground arith

record_success-ip_fails :
    (ip username : String) (t : AuthFailTracker)
    → (record_success ip username t).ip_fails ≡ delete ip t.ip_fails
unfolding record_success
record_success-ip_fails ip username t = ground arith

pub fail-IsCalm :
    (now : ℕ) (ip username : String) (blocked : List String) (w : World)
    → IsCalm blocked w
    → HasRoom now ip w
    → IsCalm blocked (fail now ip username w)
unfolding IsCalm HasRoom fail
fail-IsCalm now ip username blocked w (l, b) r = (
  subst IsLow (sym (record_fail-ip_fails now ip username w.tracker))
      (bump-IsLow now ip w.tracker.ip_fails l r),
  b,
)

pub success-IsLow :
    (ip username : String) (t : AuthFailTracker)
    → IsLow t.ip_fails
    → IsLow (record_success ip username t).ip_fails
success-IsLow ip username t l =
    subst IsLow (sym (record_success-ip_fails ip username t)) (delete-IsLow ip t.ip_fails l)

pub auto_join-IsCalm :
    (username : String) (blocked : List String) (w : World)
    → IsCalm blocked w
    → IsCalm blocked (auto_join_global_space username w)
unfolding auto_join_global_space IsCalm
auto_join-IsCalm username blocked w (l, b) = ground (arith, l, b)

pub resume-IsCalm :
    (now : ℕ) (ip : String) (c : ℕ) (token username : String) (blocked : List String) (w : World)
    → IsCalm blocked w
    → IsCalm blocked (resume now ip c token username w).1
unfolding resume IsCalm register_conn
resume-IsCalm now ip c token username blocked w (l, b) = ground (
  arith,
  b,
  success-IsLow ip username w.tracker l,
  auto_join-IsCalm username blocked (record w { tracker = record_success ip username w.tracker })
      (success-IsLow ip username w.tracker l, b),
)

module _ (compare : String → String → Bool) (generate : String → Option String)
    (sha256 : String → String) (sha256_hex : String → String)
    (validate : ℕ → String → String → Bool) where
  pub sign_in-IsCalm :
      (now : ℕ) (ip : String) (c : ℕ) (token : Option String) (m : Message) (blocked : List String)
      (w : World)
      → IsCalm blocked w
      → IsCalm blocked (sign_in compare generate sha256 sha256_hex validate now ip c token m w).1
  unfolding sign_in register_conn IsCalm record_totp_success
  sign_in-IsCalm now ip c token m blocked w (l, b) =
      auto_join-IsCalm m.sender blocked
        (record w { tracker = record_success ip m.sender (record_totp_success m.sender w.tracker) })
        (success-IsLow ip m.sender (record_totp_success m.sender w.tracker) l, b)
