-- ===== src/Channels/Say.antt =====
-- Who has a say over a post: the author, the owner and admins of its space, and the staff, as
-- channel_delete of nexus_server/ws_handlers.go asks.
use phazechat_world.Prelude.{
  ◌≡◌, any, Bool, true, ◌&&◌, ◌||◌, Option, none, some, List, [], ◌∷◌, arith, String, lookup, ◌==◌,
}
use phazechat_world.Spaces.{Channel, Member, Spaces, user_server_role, role_in, is_row}
use phazechat_world.Channels.{Post, may_delete, server_of, is_space_admin}

abbrev pub space_of : Option Channel → String
space_of none = ""
space_of (some c) = c.server_id

-- A row that makes a user the owner or an admin of a space.
abbrev pub rules : String → String → Member → Bool
rules server_id username m =
    m.server_id == server_id && m.username == username && (m.role == "owner" || m.role == "admin")

-- The author, an owner or admin of the space that the post's channel is in, or the staff.
abbrev pub has_say : Spaces → (String → Bool) → String → Post → Bool
has_say spaces is_staff username p =
    p.sender == username
    || any (rules (space_of (lookup p.channel_id spaces.channels)) username) spaces.members
    || is_staff username

pub has_say-same :
    (spaces : Spaces) (is_staff : String → Bool) (username : String) (a b : Post)
    → a.channel_id ≡ b.channel_id
    → a.sender ≡ b.sender
    → has_say spaces is_staff username a ≡ has_say spaces is_staff username b
has_say-same spaces is_staff username a b c d = cc

role_in-rules :
    (server_id username : String) (ms : List Member)
    → (role_in server_id username ms == "owner" || role_in server_id username ms == "admin") ≡ true
    → any (rules server_id username) ms ≡ true
unfolding role_in is_row
role_in-rules server_id username [] e = ground (arith, e)
role_in-rules server_id username (m ∷ ms) e = ground (arith, e, role_in-rules server_id username ms)

server_of-same :
    (channel_id : String) (spaces : Spaces)
    → server_of channel_id spaces ≡ space_of (lookup channel_id spaces.channels)
unfolding server_of
server_of-same channel_id spaces = ground arith

pub may_delete-has_say :
    (spaces : Spaces) (is_staff : String → Bool) (username : String) (p : Post)
    → may_delete spaces is_staff username p ≡ true
    → has_say spaces is_staff username p ≡ true
unfolding may_delete is_space_admin user_server_role
may_delete-has_say spaces is_staff username p e = ground (
  arith,
  e,
  server_of-same p.channel_id spaces,
  role_in-rules (server_of p.channel_id spaces) username spaces.members,
)
