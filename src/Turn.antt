-- ===== src/Turn.antt =====
-- nexus_server/cfturn.go, and `turnProvider` and `generateMediaToken` of nexus_server/main.go: the
-- credentials for TURN. A fetch is what Cloudflare's API gave when it ends; the lock is let go while
-- it runs, so other calls come between. Before the first failure `last_fail` is 0.
pub mod Cache
pub mod Servers
use phazechat_world.Prelude.{
  ℕ, zero, suc, ◌+◌, ◌-◌, ◌*◌, ◌/◌, ◌%◌, ◌≤◌, ◌<◌, min, max, ◌≡◌, refl, sym, ap, subst, ◌∙◌, ◌≢◌,
  ◌↔◌, ◌⊎◌, inl, inr, Bool, true, false, not, ◌&&◌, ◌||◌, Option, none, some, List, [], ◌∷◌, ◌++◌,
  map, arith, eq_iff, eq_refl, String, Map, lookup, insert, delete, retain, guarded, lookup-insert,
  lookup-delete, lookup-retain, modify, update_all, apply, lookup-modify, lookup-update_all,
  map_laws, length, keep, any, All, length-append, length-keep-le, get_elem?, All-keep, keep-All,
  All-get, get_elem?-total, keep-append, keep-none, ltb, leb, eqb, ◌==◌, if◌then◌else◌, Bool-cases,
  Option-cases, trim_space, has, without, including, has-without, has-including, has-All, first_row,
  change_first, change_rows, keep-change_first, keep-change_first_same, Ascends, Ascends-append,
  Ascends-change_first, change_rows-first, is_empty, starts_with, after_first, before_first,
  ends_with, split_at,
}

pub record TurnConfig : Type 0 where
  pub url : String
  pub urls : List String
  pub username : String
  pub password : String

pub record IceServer : Type 0 where
  pub urls : List String
  pub username : String
  pub credential : String

-- What is behind the scheme and before the query ends in the port.
unfoldable pub uses_port53 : String → Bool
unfolding after_first before_first ends_with
uses_port53 url = ends_with ":53" (before_first 63 (after_first 58 url))

-- The variables of `turnConfigFromICE`.
pub record Gathered : Type 0 where
  pub turn : List String
  pub stun : List String
  pub user : String
  pub cred : String

unfoldable pub is_turn : String → Bool
unfolding starts_with
is_turn url = starts_with "turn:" url || starts_with "turns:" url

unfoldable pub gather_url : IceServer → String → Gathered → Gathered
unfolding uses_port53 is_turn
gather_url s url g =
    if uses_port53 url
    then g
    else if is_turn url
    then (if not (s.username == "")
        then record g { turn = g.turn ++ url ∷ []; user = s.username; cred = s.credential }
        else record g { turn = g.turn ++ url ∷ [] })
    else if starts_with "stun:" url
    then record g { stun = g.stun ++ url ∷ [] }
    else g

unfoldable pub gather_urls : IceServer → List String → Gathered → Gathered
unfolding gather_url
gather_urls s [] g = g
gather_urls s (url ∷ urls) g = gather_urls s urls (gather_url s url g)

unfoldable pub gather : List IceServer → Gathered → Gathered
unfolding gather_urls
gather [] g = g
gather (s ∷ servers) g = gather servers (gather_urls s s.urls g)

-- What is made of the addresses for relaying, with `none` for the error.
unfoldable pub config_from : List String → Gathered → Option TurnConfig
config_from [] g = none
config_from (url ∷ urls) g =
    if g.user == "" || g.cred == ""
    then none
    else some (record { url = url; urls = urls ++ g.stun; username = g.user; password = g.cred })

unfoldable pub config_of : Gathered → Option TurnConfig
unfolding config_from
config_of g = config_from g.turn g

unfoldable pub turn_config_from_ice : List IceServer → Option TurnConfig
unfolding gather config_of
turn_config_from_ice servers =
    config_of (gather servers (record { turn = []; stun = []; user = ""; cred = "" }))

abbrev pub second : ℕ
second = 1000000000

abbrev pub cf_turn_ttl : ℕ
cf_turn_ttl = 48 * 3600 * second

abbrev pub cf_turn_refresh_before : ℕ
cf_turn_refresh_before = 24 * 3600 * second

abbrev pub cf_turn_retry_after : ℕ
cf_turn_retry_after = 60 * second

pub record CfTurn : Type 0 where
  pub cached : Option TurnConfig
  pub expires : ℕ
  pub last_fail : ℕ
  pub refreshing : Bool

-- What `Config` does: it gives a set, perhaps with a fetch started in the background, it fetches
-- itself, or it gives nothing.
pub data Reply : Type 0 where
  serves : TurnConfig → Bool → Reply
  fetches : Reply
  refuses : Reply

-- `c.cached`, where it has not expired.
unfoldable pub usable : ℕ → CfTurn → Option TurnConfig
usable now c = elim c.cached [
  | none ↦ none
  | some cfg ↦ if ltb now c.expires then some cfg else none
]

unfoldable pub is_stale : ℕ → CfTurn → Bool
is_stale now c =
    ltb (c.expires - now) cf_turn_refresh_before
    && not c.refreshing
    && ltb cf_turn_retry_after (now - c.last_fail)

unfoldable pub config_with : Option TurnConfig → ℕ → CfTurn → Reply × CfTurn
unfolding is_stale
config_with (some cfg) now c =
    if is_stale now c
    then (serves cfg true, record c { refreshing = true })
    else (serves cfg false, c)
config_with none now c =
    if ltb (now - c.last_fail) cf_turn_retry_after then (refuses, c) else (fetches, c)

unfoldable pub config : ℕ → CfTurn → Reply × CfTurn
unfolding usable config_with
config now c = config_with (usable now c) now c

-- The rest of `refresh` once the fetch has ended.
unfoldable pub refresh : ℕ → Option TurnConfig → CfTurn → Option TurnConfig × CfTurn
unfolding usable
refresh now none c = (usable now c, record c { refreshing = false; last_fail = now })
refresh now (some cfg) c =
    (some cfg, record c { refreshing = false; cached = some cfg; expires = now + cf_turn_ttl })

-- The variables of the environment.
pub record TurnEnv : Type 0 where
  pub turn_url : String
  pub turn_username : String
  pub turn_password : String
  pub turn_secret : String
  pub turn_short_term : Bool

unfoldable pub is_static : TurnEnv → Bool
is_static e = not (e.turn_url == "") && not (e.turn_username == "") && not (e.turn_password == "")

unfoldable pub is_coturn : TurnEnv → Bool
is_coturn e = not (e.turn_secret == "") && not (e.turn_url == "")

-- What the cache gave, if there is one, is an argument of the next two.
unfoldable pub turn_provider : Option TurnConfig → TurnEnv → String
unfolding is_static is_coturn
turn_provider (some cfg) e = "cloudflare"
turn_provider none e = if is_static e then "static" else if is_coturn e then "coturn" else ""

unfoldable pub static_config : TurnEnv → TurnConfig
unfolding split_at trim_space
static_config e =
    let (primary, extra) = split_at 44 e.turn_url in
    record {
      url = trim_space primary;
      urls = map trim_space extra;
      username = e.turn_username;
      password = e.turn_password;
    }

-- `stamp` is the user for a time in seconds, `mac` the base64 text of the HMAC.
unfoldable pub coturn_config :
    (ℕ → String → String) → (String → String → String) → ℕ → String → TurnEnv → TurnConfig
coturn_config stamp mac now username e =
    let user =
      stamp ((now + (if e.turn_short_term then 600 else 86400) * second) / second) username in
    record { url = e.turn_url; urls = []; username = user; password = mac e.turn_secret user }

unfoldable pub generate_media_token :
    (ℕ → String → String)
    → (String → String → String)
    → ℕ
    → String
    → Option TurnConfig
    → TurnEnv
    → Option TurnConfig
unfolding is_static is_coturn static_config coturn_config
generate_media_token stamp mac now username (some cfg) e = some cfg
generate_media_token stamp mac now username none e =
    if is_static e
    then some (static_config e)
    else if is_coturn e
    then some (coturn_config stamp mac now username e)
    else none
