-- ===== src/Tests/Rewards.antt =====
-- Reward crates: runs of nexus_server/rewards.go.
use phazechat_world.Prelude.{ℕ, ◌≤◌, false, List, [], ◌∷◌, arith}
use phazechat_world.Rewards.{floor_of, roll_reward}
use phazechat_world.Rewards.Roll.{IsDraw, IsFair, roll_reward-IsFair}
use phazechat_world.Rewards.Crates.{Referral, gained, spent, rolled_items, craft_reward}
use phazechat_world.Rewards.Streaks.{IsLucky}
use phazechat_world.Rewards.Runs.{
  Request, syncs, opens, crafts_item, signs_up, verifies, serve_all, IsTrace, no_rows, clock_after,
  serve_all-IsLucky, serve_all-solvent,
}
use phazechat_world.Rewards.Crafting.{Crafted, craft_reward-Crafted}
use phazechat_world.Rewards.Limits.{IsLimited, serve_all-IsLimited}

abbrev first : ℕ → ℕ
first n = 0

abbrev first-IsDraw : IsDraw first
first-IsDraw n h = h

abbrev through_alice : Referral
through_alice = record { referred_by = "alice"; is_verified = false; signup_ip = "192.0.2.1" }

-- Bob and carol join through alice, who opens both crates.
abbrev two_friends : List (ℕ × Request)
two_friends =
    (10, signs_up "bob" through_alice)
    ∷ (11, signs_up "carol" through_alice)
    ∷ (12, verifies "bob")
    ∷ (12, verifies "carol")
    ∷ (20, syncs "alice")
    ∷ (30, opens "alice" first first)
    ∷ (30, opens "alice" first first)
    ∷ (40, crafts_item "alice" "crown")
    ∷ []

abbrev two_friends-IsTrace : IsTrace 0 two_friends
two_friends-IsTrace = (
  omega arith,
  (
    omega arith,
    (
      omega arith,
      (
        omega arith,
        (omega arith, (omega arith, first-IsDraw, (omega arith, first-IsDraw, (omega arith, tt)))),
      ),
    ),
  ),
)

roll_reward-IsFair_example :
    IsFair ("squad" ∷ []) (floor_of 3 2) (roll_reward ("squad" ∷ []) 3 2 first first)
roll_reward-IsFair_example = roll_reward-IsFair ("squad" ∷ []) 3 2 first first first-IsDraw

serve_all-IsLucky_example : IsLucky (rolled_items "alice" (serve_all two_friends no_rows))
serve_all-IsLucky_example = serve_all-IsLucky two_friends "alice" two_friends-IsTrace

serve_all-solvent_example :
    spent "alice" (serve_all two_friends no_rows).crafts
    ≤ gained "alice" (serve_all two_friends no_rows).crates
serve_all-solvent_example = serve_all-solvent two_friends "alice" two_friends-IsTrace

serve_all-IsLimited_example :
    IsLimited (clock_after 0 two_friends) (serve_all two_friends no_rows).crates
serve_all-IsLimited_example = serve_all-IsLimited two_friends two_friends-IsTrace

craft_reward-Crafted_example :
    Crafted "alice" "crown"
      (serve_all two_friends no_rows)
      (craft_reward "alice" "crown" (serve_all two_friends no_rows))
craft_reward-Crafted_example = craft_reward-Crafted "alice" "crown" (serve_all two_friends no_rows)
