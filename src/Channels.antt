-- ===== src/Channels.antt =====
-- The messages of a space's channels: the table `channel_messages` and the channel_ messages of
-- nexus_server/ws_handlers.go. The tables of spaces are an argument, as is what `strconv.ParseInt`
-- made of the id that a message names (`none` for an error) and who is of the staff.
pub mod Say
pub mod Kept
pub mod Authors
use phazechat_world.Prelude.{
  ℕ, zero, suc, ◌+◌, ◌-◌, ◌*◌, ◌/◌, ◌%◌, ◌≤◌, ◌<◌, min, max, ◌≡◌, refl, sym, ap, subst, ◌∙◌, ◌≢◌,
  ◌↔◌, ◌⊎◌, inl, inr, Bool, true, false, not, ◌&&◌, ◌||◌, Option, none, some, List, [], ◌∷◌, ◌++◌,
  map, arith, eq_iff, eq_refl, String, Map, lookup, insert, delete, retain, guarded, lookup-insert,
  lookup-delete, lookup-retain, modify, update_all, apply, lookup-modify, lookup-update_all,
  map_laws, length, keep, any, All, length-append, length-keep-le, get_elem?, All-keep, keep-All,
  All-get, get_elem?-total, keep-append, any-keep, any-append, keep-none, ltb, leb, eqb, ◌==◌,
  if◌then◌else◌, Bool-cases, Option-cases, trim_space, has, without, including, has-without,
  has-including, has-All, first_row, change_first, change_rows, keep-change_first,
  keep-change_first_same, Ascends, Ascends-append, Ascends-change_first, change_rows-first,
  is_empty, starts_with, after_first, before_first, ends_with, split_at,
}
use Prim.Native.String.{len}
use phazechat_world.Spaces.{Channel, Spaces, is_server_member, user_server_role}

-- A row of `channel_messages`.
pub record Post : Type 0 where
  pub id : ℕ
  pub channel_id : String
  pub sender : String
  pub body : String
  pub edited : Bool
  pub deleted : Bool
  pub pinned : Bool

-- A row of `channel_reactions`.
pub record ChannelReaction : Type 0 where
  pub msg_id : ℕ
  pub emoji : String
  pub username : String

pub record Posts : Type 0 where
  pub rows : List Post
  pub reactions : List ChannelReaction
  pub next_id : ℕ

-- The fields of `NexusMessage` that are read here.
pub record Message : Type 0 where
  pub channel_id : String
  pub msg_id : String
  pub body : String
  pub reaction : String

pub data Notice : Type 0 where
  channel_msg_in : String → ℕ → String → String → Notice
  channel_react_in : String → ℕ → List ChannelReaction → Notice
  channel_edit_in : String → ℕ → String → Notice
  channel_delete_in : String → ℕ → String → Notice
  channel_pin_in : String → ℕ → Bool → Notice

-- To the connection that asked, with an error, or to everyone online in a space.
pub data Event : Type 0 where
  told : String → Event
  broadcast_channel_msg : String → Notice → Event

unfoldable pub find_post : ℕ → List Post → Option Post
find_post id [] = none
find_post id (r ∷ rs) = if eqb r.id id then some r else find_post id rs

-- `UPDATE channel_messages … WHERE id = ?`
unfoldable pub update_post : ℕ → (Post → Post) → Posts → Posts
update_post id f s = record s { rows = change_rows (λ r. eqb r.id id) f s.rows }

-- The space of a channel, empty where there is none.
unfoldable pub server_of : String → Spaces → String
server_of channel_id spaces = elim (lookup channel_id spaces.channels) [
  | none ↦ ""
  | some c ↦ c.server_id
]

unfoldable pub post_in : Spaces → Channel → String → Message → Posts → Posts × List Event
unfolding trim_space
post_in spaces c username m s =
    let body = trim_space m.body in
    if not (is_server_member c.server_id username spaces)
    then (s, told "not a member" ∷ [])
    else if body == "" || ltb 8000 (len body)
    then (s, told "body 1-8000 chars" ∷ [])
    else (
      record s {
        rows =
            s.rows
            ++ record {
              id = s.next_id;
              channel_id = m.channel_id;
              sender = username;
              body = body;
              edited = false;
              deleted = false;
              pinned = false;
            }
              ∷ [];
        next_id = s.next_id + 1;
      },
      broadcast_channel_msg c.server_id (channel_msg_in m.channel_id s.next_id username body) ∷ [],
    )

unfoldable pub post_found : Option Channel → Spaces → String → Message → Posts → Posts × List Event
unfolding post_in
post_found none spaces username m s = (s, told "no such channel" ∷ [])
post_found (some c) spaces username m s = post_in spaces c username m s

unfoldable pub channel_msg : Spaces → String → Message → Posts → Posts × List Event
unfolding post_found
channel_msg spaces username m s =
    if username == "" || m.channel_id == ""
    then (s, [])
    else post_found (lookup m.channel_id spaces.channels) spaces username m s

unfoldable pub is_channel_reaction : ℕ → String → String → ChannelReaction → Bool
is_channel_reaction id emoji username r =
    eqb r.msg_id id && r.emoji == emoji && r.username == username

unfoldable pub toggle_channel_reaction : ℕ → String → String → Posts → Posts
unfolding is_channel_reaction
toggle_channel_reaction id emoji username s =
    if any (is_channel_reaction id emoji username) s.reactions
    then record s {
      reactions = keep (λ r. not (is_channel_reaction id emoji username r)) s.reactions;
    }
    else record s {
      reactions = s.reactions ++ record { msg_id = id; emoji = emoji; username = username } ∷ [];
    }

unfoldable pub react_found :
    Option Channel → Option ℕ → Spaces → String → Message → Posts → Posts × List Event
unfolding toggle_channel_reaction
react_found none id spaces username m s = (s, [])
react_found (some c) none spaces username m s = (s, [])
react_found (some c) (some id) spaces username m s =
    let s' = toggle_channel_reaction id m.reaction username s in
    if not (is_server_member c.server_id username spaces) then (s, []) else (
      s',
      broadcast_channel_msg c.server_id
            (channel_react_in m.channel_id id (keep (λ r. eqb r.msg_id id) s'.reactions))
          ∷ [],
    )

unfoldable pub channel_react : Spaces → Option ℕ → String → Message → Posts → Posts × List Event
unfolding react_found
channel_react spaces id username m s =
    if username == "" || m.channel_id == "" || m.msg_id == "" || m.reaction == ""
    then (s, [])
    else react_found (lookup m.channel_id spaces.channels) id spaces username m s

unfoldable pub edit_post : String → Post → Post
edit_post body p = record p { body = body; edited = true }

unfoldable pub edit_found : Option Post → ℕ → Spaces → String → Message → Posts → Posts × List Event
unfolding update_post edit_post server_of
edit_found none id spaces username m s = (s, [])
edit_found (some p) id spaces username m s = if not (p.sender == username) then (s, []) else (
  update_post id (edit_post m.body) s,
  broadcast_channel_msg (server_of p.channel_id spaces) (channel_edit_in p.channel_id id m.body)
      ∷ [],
)

unfoldable pub edit_by_id : Option ℕ → Spaces → String → Message → Posts → Posts × List Event
unfolding edit_found find_post
edit_by_id none spaces username m s = (s, [])
edit_by_id (some id) spaces username m s = edit_found (find_post id s.rows) id spaces username m s

unfoldable pub channel_edit : Spaces → Option ℕ → String → Message → Posts → Posts × List Event
unfolding edit_by_id
channel_edit spaces id username m s =
    if username == "" || m.msg_id == "" || m.body == ""
    then (s, [])
    else if ltb 8000 (len m.body)
    then (s, [])
    else edit_by_id id spaces username m s

unfoldable pub delete_post : Post → Post
delete_post p = record p { deleted = true; body = "" }

unfoldable pub is_space_admin : Spaces → String → String → Bool
unfolding user_server_role
is_space_admin spaces server_id username =
    user_server_role server_id username spaces == "owner"
    || user_server_role server_id username spaces == "admin"

-- The author, an admin or the owner of the space, or one of the staff.
unfoldable pub may_delete : Spaces → (String → Bool) → String → Post → Bool
unfolding is_space_admin server_of
may_delete spaces is_staff username p =
    p.sender == username
    || is_space_admin spaces (server_of p.channel_id spaces) username
    || is_staff username

unfoldable pub delete_found :
    Option Post → ℕ → Spaces → (String → Bool) → String → Posts → Posts × List Event
unfolding update_post delete_post may_delete server_of
delete_found none id spaces is_staff username s = (s, [])
delete_found (some p) id spaces is_staff username s =
    if not (may_delete spaces is_staff username p) then (s, []) else (
      update_post id delete_post s,
      broadcast_channel_msg (server_of p.channel_id spaces)
            (channel_delete_in p.channel_id id p.sender)
          ∷ [],
    )

unfoldable pub delete_by_id :
    Option ℕ → Spaces → (String → Bool) → String → Posts → Posts × List Event
unfolding delete_found find_post
delete_by_id none spaces is_staff username s = (s, [])
delete_by_id (some id) spaces is_staff username s =
    delete_found (find_post id s.rows) id spaces is_staff username s

unfoldable pub channel_delete :
    Spaces → (String → Bool) → Option ℕ → String → Message → Posts → Posts × List Event
unfolding delete_by_id
channel_delete spaces is_staff id username m s =
    if username == "" || m.msg_id == "" then (s, []) else delete_by_id id spaces is_staff username s

unfoldable pub pin_post : Post → Post
pin_post p = record p { pinned = not p.pinned }

unfoldable pub pin_found : Option Post → ℕ → Spaces → String → Posts → Posts × List Event
unfolding update_post pin_post server_of is_space_admin
pin_found none id spaces username s = (s, [])
pin_found (some p) id spaces username s =
    let server_id = server_of p.channel_id spaces in
    if not (is_server_member server_id username spaces)
    then (s, [])
    else if not (is_space_admin spaces server_id username)
    then (s, told "admin only" ∷ [])
    else (
      update_post id pin_post s,
      broadcast_channel_msg server_id (channel_pin_in p.channel_id id (not p.pinned)) ∷ [],
    )

unfoldable pub pin_by_id : Option ℕ → Spaces → String → Posts → Posts × List Event
unfolding pin_found find_post
pin_by_id none spaces username s = (s, [])
pin_by_id (some id) spaces username s = pin_found (find_post id s.rows) id spaces username s

unfoldable pub channel_pin : Spaces → Option ℕ → String → Message → Posts → Posts × List Event
unfolding pin_by_id
channel_pin spaces id username m s =
    if username == "" || m.msg_id == "" then (s, []) else pin_by_id id spaces username s
