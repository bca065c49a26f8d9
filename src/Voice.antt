-- ===== src/Voice.antt =====
-- nexus_server/main.go and ws_handlers.go: voice rooms. A room is the set of the users in it; a
-- handler gives the rooms after it and what it sends, in order.
pub mod Members
pub mod Access
pub mod Refine
use phazechat_world.Prelude.{
  ℕ, zero, suc, ◌+◌, ◌-◌, ◌*◌, ◌/◌, ◌%◌, ◌≤◌, ◌<◌, min, max, ◌≡◌, refl, sym, ap, subst, ◌∙◌, ◌≢◌,
  ◌↔◌, ◌⊎◌, inl, inr, Bool, true, false, not, ◌&&◌, ◌||◌, Option, none, some, List, [], ◌∷◌, ◌++◌,
  map, arith, eq_iff, eq_refl, String, Map, lookup, insert, delete, retain, guarded, lookup-insert,
  lookup-delete, lookup-retain, modify, update_all, apply, lookup-modify, lookup-update_all,
  map_laws, length, keep, any, All, length-append, length-keep-le, ltb, leb, eqb, ◌==◌,
  if◌then◌else◌, Bool-cases, Option-cases, trim_space, has, without, including, has-without,
  has-including, is_empty, starts_with,
}
use phazechat_world.Spaces.{Channel, Spaces, is_server_member}

-- `NexusServer.VoiceRooms`
abbrev pub Rooms : Type 0
Rooms = Map (List String)

-- The fields of `NexusMessage` that voice rooms read.
pub record Message : Type 0 where
  pub recipient : String
  pub channel_id : String
  pub body : String
  pub sdp : String
  pub candidate : String

-- What is sent: to every connection of a user, or to the connection that asked.
pub data Event : Type 0 where
  peers : String → String → List String → Event
  peers_error : String → Event
  signal : String → Message → Event

unfoldable pub members_of : Option (List String) → List String
members_of none = []
members_of (some us) = us

unfoldable pub voice_room_join : String → String → Rooms → Rooms
unfolding members_of including
voice_room_join channel_id username rooms =
    insert channel_id (including username (members_of (lookup channel_id rooms))) rooms

unfoldable pub store_room : String → List String → Rooms → Rooms
store_room channel_id room rooms =
    if is_empty room then delete channel_id rooms else insert channel_id room rooms

unfoldable pub voice_room_leave : String → String → Rooms → Rooms
unfolding store_room
voice_room_leave channel_id username rooms = elim (lookup channel_id rooms) [
  | none ↦ rooms
  | some room ↦ store_room channel_id (without username room) rooms
]

unfoldable pub voice_room_has : String → String → Rooms → Bool
voice_room_has channel_id username rooms = elim (lookup channel_id rooms) [
  | none ↦ false
  | some room ↦ has username room
]

unfoldable pub voice_room_peers : String → Rooms → List String
unfolding members_of
voice_room_peers channel_id rooms = members_of (lookup channel_id rooms)

unfoldable pub voice_room_broadcast_peers : String → Rooms → List Event
unfolding voice_room_peers
voice_room_broadcast_peers channel_id rooms =
    let us = voice_room_peers channel_id rooms in map (λ u. peers u channel_id us) us

-- What the eviction leaves of one room.
unfoldable pub evicted : String → List String → Option (List String)
evicted username room =
    if has username room
    then (let r = without username room in if is_empty r then none else some r)
    else some room

-- The loop of `voiceRoomEvictUser`.
unfoldable pub evict_rooms : String → Rooms → Rooms
unfolding evicted
evict_rooms username [] = []
evict_rooms username ((channel_id, room) ∷ rooms) =
    let rest = evict_rooms username rooms in
    elim (evicted username room) [ none ↦ delete channel_id rest | some r ↦ (channel_id, r) ∷ rest ]

unfoldable pub affected : String → Rooms → List String
affected username [] = []
affected username ((channel_id, room) ∷ rooms) =
    let rest = affected username rooms in if has username room then channel_id ∷ rest else rest

unfoldable pub broadcast_each : List String → Rooms → List Event
unfolding voice_room_broadcast_peers
broadcast_each [] rooms = []
broadcast_each (c ∷ cs) rooms = voice_room_broadcast_peers c rooms ++ broadcast_each cs rooms

unfoldable pub voice_room_evict_user : String → Rooms → Rooms × List Event
unfolding evict_rooms broadcast_each
voice_room_evict_user username rooms =
    let rooms' = evict_rooms username rooms in
    (rooms', broadcast_each (affected username rooms) rooms')

unfoldable pub join_and_tell : String → String → Rooms → Rooms × List Event
unfolding voice_room_join
join_and_tell channel_id username rooms =
    let rooms' = voice_room_join channel_id username rooms in
    (rooms', voice_room_broadcast_peers channel_id rooms')

unfoldable pub join_channel : Spaces → String → Message → Channel → Rooms → Rooms × List Event
unfolding join_and_tell
join_channel spaces username m c rooms =
    if not (c.kind == "voice")
    then (rooms, peers_error "not a voice channel" ∷ [])
    else if not (is_server_member c.server_id username spaces)
    then (rooms, peers_error "not a member" ∷ [])
    else join_and_tell m.channel_id username rooms

unfoldable pub voice_join : Spaces → String → Message → Rooms → Rooms × List Event
unfolding join_channel
voice_join spaces username m rooms =
    if username == "" || m.channel_id == ""
    then (rooms, [])
    else if starts_with "call_" m.channel_id
    then join_and_tell m.channel_id username rooms
    else elim (lookup m.channel_id spaces.channels) [
      | none ↦ (rooms, peers_error "channel not found" ∷ [])
      | some c ↦ join_channel spaces username m c rooms
    ]

unfoldable pub voice_leave : String → Message → Rooms → Rooms × List Event
unfolding voice_room_leave
voice_leave username m rooms =
    if username == "" || m.channel_id == ""
    then (rooms, [])
    else (let rooms' = voice_room_leave m.channel_id username rooms in
        (rooms', voice_room_broadcast_peers m.channel_id rooms'))

unfoldable pub voice_signal : String → Message → Rooms → List Event
voice_signal username m rooms =
    if username == "" || m.recipient == "" || m.channel_id == ""
    then []
    else if not (voice_room_has m.channel_id username rooms)
        || not (voice_room_has m.channel_id m.recipient rooms)
    then []
    else signal username m ∷ []
