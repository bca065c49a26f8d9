-- ===== src/SignIn/Runs.antt =====
-- Every run of the sign-in messages of nexus_server/ws_handlers.go, handled one after another.
use phazechat_world.Prelude.{ℕ, ◌≡◌, inl, inr, Bool, false, Option, List, arith, String, Bool-cases}
use phazechat_world.AuthTracker.{
  is_ip_throttled, is_user_locked, is_totp_throttled, record_totp_fail,
}
use phazechat_world.Accounts.{authenticate_user}
use phazechat_world.Sessions.{session_username}
use phazechat_world.Sessions.Qr.{check_qr_login}
use phazechat_world.SignIn.{
  World, Message, register_conn, auth_second_factor, auth_totp, auth_password, auth_user, auth,
  session_auth, qr_login_check, second_factor,
}
use phazechat_world.SignIn.Blocking.{
  IsCalm, HasRoom, throttled-IsLow, throttled-room, auto_block-IsCalm, fail-IsCalm, success-IsLow,
  resume-IsCalm, sign_in-IsCalm,
}

-- What a throttle query leaves.
unfoldable queried : ℕ → String → World → World
queried now ip w = record w { tracker = (is_ip_throttled now ip w.tracker).1 }

queried-IsCalm :
    (now : ℕ) (ip : String) (blocked : List String) (w : World)
    → IsCalm blocked w
    → IsCalm blocked (queried now ip w)
unfolding queried IsCalm is_ip_throttled
queried-IsCalm now ip blocked w (l, b) = (throttled-IsLow now ip w.tracker.ip_fails l, b)

queried-HasRoom :
    (now : ℕ) (ip : String) (blocked : List String) (w : World)
    → IsCalm blocked w
    → (is_ip_throttled now ip w.tracker).0 ≡ false
    → HasRoom now ip (queried now ip w)
unfolding queried IsCalm HasRoom is_ip_throttled
queried-HasRoom now ip blocked w (l, b) n = throttled-room now ip w.tracker.ip_fails l n

pub session_auth-IsCalm :
    (now : ℕ) (ip : String) (c : ℕ) (token : String) (blocked : List String) (w : World)
    → IsCalm blocked w
    → IsCalm blocked (session_auth now ip c token w).1
unfolding session_auth queried
session_auth-IsCalm now ip c token blocked w t =
    elim (Bool-cases (is_ip_throttled now ip w.tracker).0) [
      | inl e ↦ ground (
        arith,
        e,
        auto_block-IsCalm now ip blocked (queried now ip w) (queried-IsCalm now ip blocked w t),
      )
      | inr e ↦ ground (
        arith,
        e,
        fail-IsCalm now ip "" blocked (queried now ip w) (queried-IsCalm now ip blocked w t)
            (queried-HasRoom now ip blocked w t e),
        resume-IsCalm now ip c token (session_username now token w.store) blocked (queried now ip w)
            (queried-IsCalm now ip blocked w t),
      )
    ]

pub qr_login_check-IsCalm :
    (now : ℕ) (ip : String) (c : ℕ) (token : String) (blocked : List String) (w : World)
    → IsCalm blocked w
    → IsCalm blocked (qr_login_check now ip c token w).1
unfolding qr_login_check queried register_conn IsCalm
qr_login_check-IsCalm now ip c token blocked w t =
    elim (Bool-cases (is_ip_throttled now ip w.tracker).0) [
      | inl e ↦ ground (
        arith,
        e,
        auto_block-IsCalm now ip blocked (queried now ip w) (queried-IsCalm now ip blocked w t),
      )
      | inr e ↦ ground (
        arith,
        e,
        queried-IsCalm now ip blocked w t,
        fail-IsCalm now ip "" blocked (queried now ip w) (queried-IsCalm now ip blocked w t)
            (queried-HasRoom now ip blocked w t e),
        success-IsLow ip (check_qr_login now token w.store).username (queried now ip w).tracker
            (queried-IsCalm now ip blocked w t).0,
      )
    ]

module _ (compare : String → String → Bool) (generate : String → Option String)
    (sha256 : String → String) (sha256_hex : String → String)
    (validate : ℕ → String → String → Bool) where
  auth_second_factor-IsCalm :
      (now : ℕ) (ip : String) (c : ℕ) (token : Option String) (m : Message) (blocked : List String)
      (w : World)
      → IsCalm blocked w
      → IsCalm blocked
          (auth_second_factor compare generate sha256 sha256_hex validate now ip c token m w).1
  unfolding auth_second_factor IsCalm record_totp_fail
  auth_second_factor-IsCalm now ip c token m blocked w (l, b) =
      let (ok, accounts) =
        second_factor compare generate sha256 sha256_hex validate now m.sender m.totp_code
          w.accounts in
      elim (Bool-cases ok) [
        | inl e ↦ ground (
          arith,
          e,
          sign_in-IsCalm compare generate sha256 sha256_hex validate now ip c token m blocked
              (record w { accounts = accounts }) (l, b),
        )
        | inr e ↦ ground (arith, e, l, b)
      ]

  auth_totp-IsCalm :
      (now : ℕ) (ip : String) (c : ℕ) (token : Option String) (m : Message) (blocked : List String)
      (w : World)
      → IsCalm blocked w
      → IsCalm blocked (auth_totp compare generate sha256 sha256_hex validate now ip c token m w).1
  unfolding auth_totp IsCalm is_totp_throttled
  auth_totp-IsCalm now ip c token m blocked w (l, b) = ground (
    arith,
    l,
    b,
    auth_second_factor-IsCalm now ip c token m blocked
        (record w { tracker = (is_totp_throttled now m.sender w.tracker).1 }) (l, b),
  )

  auth_password-IsCalm :
      (now : ℕ) (ip : String) (c : ℕ) (token : Option String) (m : Message) (blocked : List String)
      (w : World)
      → IsCalm blocked w
      → HasRoom now ip w
      → IsCalm blocked
          (auth_password compare generate sha256 sha256_hex validate now ip c token m w).1
  unfolding auth_password IsCalm HasRoom
  auth_password-IsCalm now ip c token m blocked w (l, b) r =
      let (ok, accounts) = authenticate_user compare generate sha256 m.sender m.body w.accounts in
      elim (Bool-cases ok) [
        | inl e ↦ ground (
          arith,
          e,
          l,
          b,
          auth_totp-IsCalm now ip c token m blocked (record w { accounts = accounts }) (l, b),
        )
        | inr e ↦ ground (
          arith,
          e,
          fail-IsCalm now ip m.sender blocked (record w { accounts = accounts }) (l, b) r,
        )
      ]

  auth_user-IsCalm :
      (now : ℕ) (ip : String) (c : ℕ) (token : Option String) (m : Message) (blocked : List String)
      (w : World)
      → IsCalm blocked w
      → HasRoom now ip w
      → IsCalm blocked (auth_user compare generate sha256 sha256_hex validate now ip c token m w).1
  unfolding auth_user IsCalm HasRoom is_user_locked
  auth_user-IsCalm now ip c token m blocked w (l, b) r = ground (
    arith,
    l,
    b,
    auth_password-IsCalm now ip c token m blocked
        (record w { tracker = (is_user_locked now m.sender w.tracker).1 }) (l, b) r,
  )

  pub auth-IsCalm :
      (now : ℕ) (ip : String) (c : ℕ) (token : Option String) (m : Message) (blocked : List String)
      (w : World)
      → IsCalm blocked w
      → IsCalm blocked (auth compare generate sha256 sha256_hex validate now ip c token m w).1
  unfolding auth queried
  auth-IsCalm now ip c token m blocked w t =
      elim (Bool-cases (is_ip_throttled now ip w.tracker).0) [
        | inl e ↦ ground (
          arith,
          e,
          t,
          auto_block-IsCalm now ip blocked (queried now ip w) (queried-IsCalm now ip blocked w t),
        )
        | inr e ↦ ground (
          arith,
          e,
          t,
          auth_user-IsCalm now ip c token m blocked (queried now ip w)
              (queried-IsCalm now ip blocked w t) (queried-HasRoom now ip blocked w t e),
        )
      ]
