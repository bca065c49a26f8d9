-- ===== src/Voice/Access.antt =====
-- Voice rooms: what holds of every run of the messages and evictions of nexus_server/ws_handlers.go.
use phazechat_world.Prelude.{
  ◌≡◌, refl, ◌⊎◌, inl, inr, Bool, true, false, not, ◌&&◌, ◌||◌, Option, none, some, List, [], ◌∷◌,
  arith, eq_iff, any, String, lookup, lookup-insert, ◌==◌, Option-cases, without, including,
  is_empty, starts_with,
}
use phazechat_world.Spaces.{Channel, Spaces, is_server_member, is_row}
use phazechat_world.Voice.{
  Rooms, Message, signal, voice_room_has, join_and_tell, join_channel, voice_join, voice_leave,
  voice_signal, voice_room_join, voice_room_leave, evict_rooms, voice_room_evict_user, members_of,
  evicted,
}
use phazechat_world.Voice.Members.{
  voice_room_has-voice_room_join, voice_room_has-voice_room_leave, voice_room_has-evict_rooms,
  lookup-store_room, lookup-evict_rooms,
}

-- What changes the rooms: a join comes with the tables of spaces as they are then, and a user is
-- evicted when the last connection closes.
pub data Request : Type 0 where
  joins : Spaces → String → Message → Request
  leaves : String → Message → Request
  closes : String → Request

unfoldable pub serve : Request → Rooms → Rooms
serve (joins spaces username m) rooms = (voice_join spaces username m rooms).0
serve (leaves username m) rooms = (voice_leave username m rooms).0
serve (closes username) rooms = (voice_room_evict_user username rooms).0

unfoldable pub serve_all : List Request → Rooms → Rooms
serve_all [] rooms = rooms
serve_all (r ∷ rs) rooms = serve_all rs (serve r rooms)

abbrev pub is_open_to : Spaces → String → Option Channel → Bool
is_open_to spaces username none = false
is_open_to spaces username (some c) =
    c.kind == "voice"
    && any (λ r. r.server_id == c.server_id && r.username == username) spaces.members

-- Who may be in a room: anyone in the room of a call, and the members of its space in a channel.
abbrev pub may_be_in : Spaces → String → String → Bool
may_be_in spaces channel_id username =
    starts_with "call_" channel_id || is_open_to spaces username (lookup channel_id spaces.channels)

-- Whether a request is the join of a room by a user who may be in it at that time.
abbrev pub admits : String → String → Request → Bool
admits c u (joins spaces username m) = m.channel_id == c && username == u && may_be_in spaces c u
admits c u (leaves username m) = false
admits c u (closes username) = false

join_and_tell-has :
    (c u d v : String) (rooms : Rooms)
    → voice_room_has d v (join_and_tell c u rooms).0
      ≡ (c == d && u == v || voice_room_has d v rooms)
unfolding join_and_tell
join_and_tell-has c u d v rooms = ground (arith, voice_room_has-voice_room_join c d u v rooms)

voice_join-admits :
    (spaces : Spaces) (username c u : String) (m : Message) (rooms : Rooms)
    → voice_room_has c u (voice_join spaces username m rooms).0 ≡ true
    → admits c u (joins spaces username m) || voice_room_has c u rooms ≡ true
unfolding voice_join join_channel is_server_member is_row
voice_join-admits spaces username c u m rooms h = ground (
  arith,
  join_and_tell-has m.channel_id username c u rooms,
  h,
  eq_iff m.channel_id c,
  eq_iff username u,
)

serve-admits :
    (c u : String) (r : Request) (rooms : Rooms)
    → voice_room_has c u (serve r rooms) ≡ true
    → admits c u r || voice_room_has c u rooms ≡ true
unfolding serve voice_leave voice_room_evict_user
serve-admits c u (joins spaces username m) rooms h = voice_join-admits spaces username c u m rooms h
serve-admits c u (leaves username m) rooms h =
    ground (arith, h, voice_room_has-voice_room_leave m.channel_id c username u rooms)
serve-admits c u (closes username) rooms h =
    ground (arith, h, voice_room_has-evict_rooms username c u rooms)

serve_all-admits :
    (c u : String) (rs : List Request) (rooms : Rooms)
    → voice_room_has c u (serve_all rs rooms) ≡ true
    → any (admits c u) rs || voice_room_has c u rooms ≡ true
unfolding serve_all
serve_all-admits c u [] rooms h = h
serve_all-admits c u (r ∷ rs) rooms h =
    ground (arith, serve_all-admits c u rs (serve r rooms) h, serve-admits c u r rooms)

-- Started with no rooms and whatever users join, leave and disconnect, while the channels and the
-- members of spaces change in any way: a signal is dropped, or it goes to the user it names, once,
-- and then each of the two users had joined the room it names at a time when that user might be in
-- it: the room is that of a call, or was a voice channel of a space with the user as a member.
pub voice_signal-serve_all :
    (rs : List Request) (username : String) (m : Message)
    → (voice_signal username m (serve_all rs []) ≡ [])
      ⊎ ((voice_signal username m (serve_all rs []) ≡ signal username m ∷ [])
          × (any (admits m.channel_id username) rs ≡ true)
          × (any (admits m.channel_id m.recipient) rs ≡ true))
unfolding voice_signal voice_room_has lookup
voice_signal-serve_all rs username m = ground (
  arith,
  serve_all-admits m.channel_id username rs [],
  serve_all-admits m.channel_id m.recipient rs [],
)

-- Whether an entry is no room at all or one that someone is in.
abbrev pub is_used : Option (List String) → Bool
is_used none = true
is_used (some us) = not (is_empty us)

unfoldable IsTidy : Rooms → Type 0
IsTidy rooms = (c : String) → is_used (lookup c rooms) ≡ true

join-IsTidy : (c u : String) (rooms : Rooms) → IsTidy rooms → IsTidy (voice_room_join c u rooms)
unfolding IsTidy voice_room_join including
join-IsTidy c u rooms t d =
    ground (arith, lookup-insert c d (including u (members_of (lookup c rooms))) rooms, t d)

leave-IsTidy : (c u : String) (rooms : Rooms) → IsTidy rooms → IsTidy (voice_room_leave c u rooms)
unfolding IsTidy voice_room_leave
leave-IsTidy c u rooms t d = elim (Option-cases (lookup c rooms)) [
  | inl e ↦ ground (arith, t d)
  | inr (room, e) ↦ ground (arith, lookup-store_room c d (without u room) rooms, t d)
]

evict-IsTidy : (u : String) (rooms : Rooms) → IsTidy rooms → IsTidy (evict_rooms u rooms)
unfolding IsTidy evicted
evict-IsTidy u rooms t d = ground (arith, lookup-evict_rooms u d rooms, t d)

serve-IsTidy : (r : Request) (rooms : Rooms) → IsTidy rooms → IsTidy (serve r rooms)
unfolding serve voice_join join_channel join_and_tell voice_leave voice_room_evict_user
serve-IsTidy (joins spaces username m) rooms t =
    ground (arith, join-IsTidy m.channel_id username rooms)
serve-IsTidy (leaves username m) rooms t = ground (arith, leave-IsTidy m.channel_id username rooms)
serve-IsTidy (closes username) rooms t = evict-IsTidy username rooms t

serve_all-IsTidy : (rs : List Request) (rooms : Rooms) → IsTidy rooms → IsTidy (serve_all rs rooms)
unfolding serve_all
serve_all-IsTidy [] rooms t = t
serve_all-IsTidy (r ∷ rs) rooms t = serve_all-IsTidy rs (serve r rooms) (serve-IsTidy r rooms t)

-- Started with no rooms, whatever users join, leave and disconnect and when one more user is then
-- evicted: no room is kept that nobody is in, the user is in no room, and every other user is in
-- the rooms that the user was in before.
pub voice_room_evict_user-serve_all :
    (rs : List Request) (username c u : String)
    → (is_used (lookup c (voice_room_evict_user username (serve_all rs [])).0) ≡ true)
      × (voice_room_has c u (voice_room_evict_user username (serve_all rs [])).0
          ≡ (not (username == u) && voice_room_has c u (serve_all rs [])))
unfolding voice_room_evict_user IsTidy lookup
voice_room_evict_user-serve_all rs username c u = (
  evict-IsTidy username (serve_all rs []) (serve_all-IsTidy rs [] (λ _. refl)) c,
  voice_room_has-evict_rooms username c u (serve_all rs []),
)
