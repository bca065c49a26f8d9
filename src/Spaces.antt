-- ===== src/Spaces.antt =====
-- nexus_server/main.go: the tables of spaces that the channel features read, `channels` and
-- `server_members`, and the queries on them.
use phazechat_world.Prelude.{Bool, ◌&&◌, List, [], ◌∷◌, String, Map, any, ◌==◌, if◌then◌else◌}

-- `SELECT server_id, kind FROM channels`
pub record Channel : Type 0 where
  pub server_id : String
  pub kind : String

-- A row of `server_members`.
pub record Member : Type 0 where
  pub server_id : String
  pub username : String
  pub role : String

pub record Spaces : Type 0 where
  pub channels : Map Channel
  pub members : List Member

unfoldable pub is_row : String → String → Member → Bool
is_row server_id username m = m.server_id == server_id && m.username == username

unfoldable pub is_server_member : String → String → Spaces → Bool
unfolding is_row
is_server_member server_id username s = any (is_row server_id username) s.members

unfoldable pub role_in : String → String → List Member → String
unfolding is_row
role_in server_id username [] = ""
role_in server_id username (m ∷ ms) =
    if is_row server_id username m then m.role else role_in server_id username ms

unfoldable pub user_server_role : String → String → Spaces → String
unfolding role_in
user_server_role server_id username s = role_in server_id username s.members
