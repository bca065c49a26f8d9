-- ===== src/SignIn/NeverBlocks.antt =====
-- The automatic block of nexus_server/ws_handlers.go is out of reach of its own handlers.
use phazechat_world.Prelude.{ℕ, ◌≡◌, refl, sym, subst, Bool, Option, List, [], ◌∷◌, String, lookup}
use phazechat_world.SignIn.{World, Message, auth, session_auth, qr_login_check}
use phazechat_world.SignIn.Blocking.{IsLow, IsCalm}
use phazechat_world.SignIn.Runs.{auth-IsCalm, session_auth-IsCalm, qr_login_check-IsCalm}

-- A message that signs in, with the time, the address and the connection that it comes from.
pub data Request : Type 0 where
  auths : ℕ → String → ℕ → Option String → Message → Request
  resumes : ℕ → String → ℕ → String → Request
  polls : ℕ → String → ℕ → String → Request

module _ (compare : String → String → Bool) (generate : String → Option String)
    (sha256 : String → String) (sha256_hex : String → String)
    (validate : ℕ → String → String → Bool) where
  unfoldable pub serve : Request → World → World
  serve (auths now ip c token m) w =
      (auth compare generate sha256 sha256_hex validate now ip c token m w).1
  serve (resumes now ip c token) w = (session_auth now ip c token w).1
  serve (polls now ip c token) w = (qr_login_check now ip c token w).1

  unfoldable pub serve_all : List Request → World → World
  serve_all [] w = w
  serve_all (r ∷ rs) w = serve_all rs (serve r w)

  serve-IsCalm :
      (r : Request) (blocked : List String) (w : World)
      → IsCalm blocked w
      → IsCalm blocked (serve r w)
  unfolding serve
  serve-IsCalm (auths now ip c token m) blocked w t =
      auth-IsCalm compare generate sha256 sha256_hex validate now ip c token m blocked w t
  serve-IsCalm (resumes now ip c token) blocked w t = session_auth-IsCalm now ip c token blocked w t
  serve-IsCalm (polls now ip c token) blocked w t = qr_login_check-IsCalm now ip c token blocked w t

  serve_all-IsCalm :
      (rs : List Request) (blocked : List String) (w : World)
      → IsCalm blocked w
      → IsCalm blocked (serve_all rs w)
  unfolding serve_all
  serve_all-IsCalm [] blocked w t = t
  serve_all-IsCalm (r ∷ rs) blocked w t =
      serve_all-IsCalm rs blocked (serve r w) (serve-IsCalm r blocked w t)

  -- Started with no failures counted against any address, no run of sign-ins by password, by session
  -- token and by QR code, handled one after another, ever blocks an address, however many of them
  -- fail and at whatever times.
  pub blocked_ips-serve_all :
      (rs : List Request) (w : World)
      → w.tracker.ip_fails ≡ []
      → (serve_all rs w).blocked_ips ≡ w.blocked_ips
  unfolding IsCalm IsLow lookup
  blocked_ips-serve_all rs w e =
      (serve_all-IsCalm rs w.blocked_ips w (subst IsLow (sym e) (λ _. refl), refl)).1
