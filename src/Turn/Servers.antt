-- ===== src/Turn/Servers.antt =====
-- Cloudflare's list of servers as nexus_server/cfturn.go flattens it.
use phazechat_world.Prelude.{
  ◌≡◌, refl, sym, ap, subst, ◌∙◌, ◌≢◌, inl, inr, Bool, false, not, ◌&&◌, ◌||◌, some, List, [], ◌∷◌,
  ◌++◌, arith, eq_iff, String, keep, keep-append, ◌==◌, if◌then◌else◌, Bool-cases, starts_with,
}
use mathlib.Core.List.{append_assoc, append-nil}
use phazechat_world.Turn.{
  TurnConfig, IceServer, Gathered, uses_port53, is_turn, gather_url, gather_urls, gather,
  config_from, config_of, turn_config_from_ice,
}

-- All addresses, in their order.
unfoldable pub all_urls : List IceServer → List String
all_urls [] = []
all_urls (s ∷ servers) = s.urls ++ all_urls servers

abbrev pub is_relay : String → Bool
is_relay url = not (uses_port53 url) && is_turn url

abbrev pub is_stun : String → Bool
is_stun url = not (uses_port53 url) && not (is_turn url) && starts_with "stun:" url

gather_url-lists :
    (s : IceServer) (url : String) (urls : List String) (g : Gathered)
    → ((gather_url s url g).turn ++ urls ≡ g.turn ++ (if is_relay url then url ∷ urls else urls))
      × ((gather_url s url g).stun ++ urls ≡ g.stun ++ (if is_stun url then url ∷ urls else urls))
unfolding gather_url
gather_url-lists s url urls g =
    ground (arith, append_assoc g.turn (url ∷ []) urls, append_assoc g.stun (url ∷ []) urls)

gather_urls-lists :
    (s : IceServer) (urls : List String) (g : Gathered)
    → ((gather_urls s urls g).turn ≡ g.turn ++ keep is_relay urls)
      × ((gather_urls s urls g).stun ≡ g.stun ++ keep is_stun urls)
unfolding gather_urls
gather_urls-lists s [] g = (sym (append-nil g.turn), sym (append-nil g.stun))
gather_urls-lists s (url ∷ urls) g =
    let (t, u) = gather_urls-lists s urls (gather_url s url g) in
    let (v, w) = gather_url-lists s url (keep is_relay urls) g in
    let (x, y) = gather_url-lists s url (keep is_stun urls) g in (t ∙ v, u ∙ y)

gather-lists :
    (servers : List IceServer) (g : Gathered)
    → ((gather servers g).turn ≡ g.turn ++ keep is_relay (all_urls servers))
      × ((gather servers g).stun ≡ g.stun ++ keep is_stun (all_urls servers))
unfolding gather all_urls
gather-lists [] g = (sym (append-nil g.turn), sym (append-nil g.stun))
gather-lists (s ∷ servers) g =
    let g' = gather_urls s s.urls g in
    let (t, u) = gather-lists servers g' in
    let (v, w) = gather_urls-lists s s.urls g in
    let relays = all_urls servers in
    (
      t
          ∙ ap (λ l. l ++ keep is_relay relays) v
          ∙ append_assoc g.turn (keep is_relay s.urls) (keep is_relay relays)
          ∙ ap (λ l. g.turn ++ l) (sym (keep-append is_relay s.urls relays)),
      u
          ∙ ap (λ l. l ++ keep is_stun relays) w
          ∙ append_assoc g.stun (keep is_stun s.urls) (keep is_stun relays)
          ∙ ap (λ l. g.stun ++ l) (sym (keep-append is_stun s.urls relays)),
    )

abbrev made_of : String → List String → Gathered → TurnConfig
made_of url urls g = record {
  url = url;
  urls = urls ++ g.stun;
  username = g.user;
  password = g.cred;
}

made :
    (url : String) (urls : List String) (g : Gathered) (cfg : TurnConfig)
    → g.user == "" || g.cred == "" ≡ false
    → config_from (url ∷ urls) g ≡ some cfg
    → made_of url urls g ≡ cfg
unfolding config_from
made url urls g cfg b e =
    let h : config_from (url ∷ urls) g ≡ some (made_of url urls g) = rw b refl in
    let q : some (made_of url urls g) ≡ some cfg = sym h ∙ e in cc

config_from-some :
    (turn : List String) (g : Gathered) (cfg : TurnConfig)
    → config_from turn g ≡ some cfg
    → (cfg.url ∷ cfg.urls ≡ turn ++ g.stun) × (cfg.username ≢ "") × (cfg.password ≢ "")
unfolding config_from
config_from-some [] g cfg e = absurd (ground (arith, e))
config_from-some (url ∷ urls) g cfg e = elim (Bool-cases (g.user == "" || g.cred == "")) [
  | inl b ↦ absurd (ground (arith, b, e))
  | inr b ↦
      subst (λ c. (c.url ∷ c.urls ≡ (url ∷ urls) ++ g.stun) × (c.username ≢ "") × (c.password ≢ ""))
        (made url urls g cfg b e)
        (
          refl,
          λ h. ground (arith, b, (eq_iff g.user "").1 h),
          λ h. ground (arith, b, (eq_iff g.cred "").1 h),
        )
]

-- Where the list of servers gives settings, their addresses are those of the list for relaying, in
-- its order, the first of them apart, and then those for STUN; none is on port 53 and none is
-- repeated or lost. The user and the password are not empty.
pub turn_config_from_ice-urls :
    (servers : List IceServer) (cfg : TurnConfig)
    → turn_config_from_ice servers ≡ some cfg
    → (cfg.url ∷ cfg.urls ≡ keep is_relay (all_urls servers) ++ keep is_stun (all_urls servers))
      × (cfg.username ≢ "")
      × (cfg.password ≢ "")
unfolding turn_config_from_ice config_of
turn_config_from_ice-urls servers cfg e =
    let g : Gathered = record { turn = []; stun = []; user = ""; cred = "" } in
    let (t, u) = gather-lists servers g in
    let (l, n, p) = config_from-some (gather servers g).turn (gather servers g) cfg e in
    (
      l
          ∙ ap (λ a. a ++ (gather servers g).stun) t
          ∙ ap (λ a. keep is_relay (all_urls servers) ++ a) u,
      n,
      p,
    )
