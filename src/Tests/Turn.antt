-- ===== src/Tests/Turn.antt =====
-- TURN credentials: the cache and the list of servers of nexus_server/cfturn.go.
use phazechat_world.Prelude.{
  ℕ, ◌*◌, ◌≡◌, refl, ◌≢◌, true, none, some, List, [], ◌∷◌, ◌++◌, arith, keep, after_first,
  before_first, ends_with,
}
use phazechat_world.Turn.{TurnConfig, IceServer, uses_port53, config, turn_config_from_ice, second}
use phazechat_world.Turn.Cache.{
  Event, asks, ends, step, steps, is_served, IsJustified, empty_cache, config-served,
  config-IsJustified,
}
use phazechat_world.Turn.Servers.{all_urls, is_relay, is_stun, turn_config_from_ice-urls}

abbrev relay : TurnConfig
relay = record {
  url = "turn:turn.cloudflare.com:3478?transport=udp";
  urls = "stun:stun.cloudflare.com:3478" ∷ [];
  username = "u";
  password = "p";
}

blocked_port : uses_port53 "turn:turn.cloudflare.com:53?transport=udp" ≡ true
unfolding uses_port53 after_first before_first ends_with
blocked_port = refl

abbrev answer : List IceServer
answer =
    record { urls = "stun:stun.cloudflare.com:3478" ∷ []; username = ""; credential = "" }
    ∷ record {
      urls =
          "turn:turn.cloudflare.com:3478?transport=udp"
          ∷ "turn:turn.cloudflare.com:53?transport=udp" ∷ [];
      username = "u";
      credential = "p";
    }
    ∷ []

answer_flat : turn_config_from_ice answer ≡ some relay
unfolding turn_config_from_ice
answer_flat = refl

turn_config_from_ice-urls_example :
    (relay.url ∷ relay.urls ≡ keep is_relay (all_urls answer) ++ keep is_stun (all_urls answer))
    × (relay.username ≢ "")
    × (relay.password ≢ "")
turn_config_from_ice-urls_example = turn_config_from_ice-urls answer relay answer_flat

-- A fetch gives a set, and a later one fails.
abbrev later : List (ℕ × Event)
later = (90000 * second, asks) ∷ (90010 * second, ends none) ∷ []

config-served_example :
    is_served
      (config
        (100000 * second)
        (steps later (step (100 * second) (ends (some relay)) empty_cache))).0
    ≡ true
config-served_example =
    config-served empty_cache relay (100 * second) (100000 * second) later
      (omega arith, (omega arith, omega arith)) (omega arith)

abbrev fetched : List (ℕ × Event)
fetched = (90 * second, asks) ∷ (100 * second, ends (some relay)) ∷ later

config-IsJustified_example :
    IsJustified (100000 * second) fetched (config (100000 * second) (steps fetched empty_cache)).0
config-IsJustified_example =
    config-IsJustified (100000 * second) fetched
      (omega arith, (omega arith, (omega arith, (omega arith, omega arith)))) (omega arith)
