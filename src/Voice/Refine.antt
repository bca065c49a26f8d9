-- ===== src/Voice/Refine.antt =====
-- Voice rooms of nexus_server/main.go and ws_handlers.go, and the relation that they keep: who is in
-- which room. The rooms are a map of sets that drops empty ones; the relation has none of that.
use phazechat_world.Prelude.{
  ◌≡◌, refl, ◌∙◌, inl, inr, Bool, false, not, ◌&&◌, ◌||◌, List, [], ◌∷◌, arith, String, lookup,
  ◌==◌, if◌then◌else◌, Option-cases, has,
}
use phazechat_world.Spaces.{Spaces, is_server_member, is_row}
use phazechat_world.Voice.{
  Rooms, Message, Event, signal, voice_room_has, voice_room_peers, join_and_tell, join_channel,
  voice_join, voice_leave, voice_signal, voice_room_evict_user, members_of,
}
use phazechat_world.Voice.Members.{
  voice_room_has-voice_room_join, voice_room_has-voice_room_leave, voice_room_has-evict_rooms,
}
use phazechat_world.Voice.Access.{Request, joins, leaves, closes, serve, serve_all, may_be_in}

-- Whether a user is in a room.
abbrev pub Presence : Type 0
Presence = String → String → Bool

abbrev pub nobody : Presence
nobody c u = false

abbrev enter : String → String → Presence → Presence
enter c u s d v = c == d && u == v || s d v

-- What a request does to the relation: a join counts where the user may be in the room, and neither
-- joins nor leaves count without a user and a room.
unfoldable pub attend : Request → Presence → Presence
attend (joins spaces username m) s d v =
    if username == "" || m.channel_id == ""
    then s d v
    else if may_be_in spaces m.channel_id username
    then enter m.channel_id username s d v
    else s d v
attend (leaves username m) s d v =
    if username == "" || m.channel_id == ""
    then s d v
    else not (m.channel_id == d && username == v) && s d v
attend (closes username) s d v = not (username == v) && s d v

unfoldable pub attend_all : List Request → Presence → Presence
attend_all [] s = s
attend_all (r ∷ rs) s = attend_all rs (attend r s)

-- The rooms hold the relation.
abbrev pub IsShown : Rooms → Presence → Type 0
IsShown rooms s = (d v : String) → voice_room_has d v rooms ≡ s d v

join-IsShown :
    (c u : String) (rooms : Rooms) (s : Presence)
    → IsShown rooms s
    → IsShown (join_and_tell c u rooms).0 (enter c u s)
unfolding join_and_tell
join-IsShown c u rooms s h d v = ground (arith, voice_room_has-voice_room_join c d u v rooms, h d v)

voice_join-IsShown :
    (spaces : Spaces) (username : String) (m : Message) (rooms : Rooms) (s : Presence)
    → IsShown rooms s
    → IsShown (voice_join spaces username m rooms).0 (attend (joins spaces username m) s)
unfolding voice_join join_channel attend is_server_member is_row
voice_join-IsShown spaces username m rooms s h d v =
    ground (arith, join-IsShown m.channel_id username rooms s h d v, h d v)

serve-IsShown :
    (r : Request) (rooms : Rooms) (s : Presence)
    → IsShown rooms s
    → IsShown (serve r rooms) (attend r s)
unfolding serve attend voice_leave voice_room_evict_user
serve-IsShown (joins spaces username m) rooms s h d v =
    voice_join-IsShown spaces username m rooms s h d v
serve-IsShown (leaves username m) rooms s h d v =
    ground (arith, voice_room_has-voice_room_leave m.channel_id d username v rooms, h d v)
serve-IsShown (closes username) rooms s h d v =
    ground (arith, voice_room_has-evict_rooms username d v rooms, h d v)

serve_all-IsShown :
    (rs : List Request) (rooms : Rooms) (s : Presence)
    → IsShown rooms s
    → IsShown (serve_all rs rooms) (attend_all rs s)
unfolding serve_all attend_all
serve_all-IsShown [] rooms s h = h
serve_all-IsShown (r ∷ rs) rooms s h =
    serve_all-IsShown rs (serve r rooms) (attend r s) (serve-IsShown r rooms s h)

has-voice_room_peers :
    (d v : String) (rooms : Rooms) → has v (voice_room_peers d rooms) ≡ voice_room_has d v rooms
unfolding voice_room_peers voice_room_has members_of has
has-voice_room_peers d v rooms = elim (Option-cases (lookup d rooms)) [
  | inl e ↦ ground (arith, e)
  | inr (room, e) ↦ ground (arith, e)
]

-- The signals that the relation lets through.
abbrev pub relayed : String → Message → Presence → List Event
relayed username m s =
    if not (username == "" || m.recipient == "" || m.channel_id == "")
      && s m.channel_id username
      && s m.channel_id m.recipient
    then signal username m ∷ []
    else []

-- Started with no rooms, after any requests the rooms show exactly what the relation says: which
-- users a room has, whom its peers list names, and which signals are delivered. In the relation a
-- user is in a room after joining it where that is allowed and until leaving it or disconnecting.
pub serve_all-refines :
    (rs : List Request) (username d v : String) (m : Message)
    → (voice_room_has d v (serve_all rs []) ≡ attend_all rs nobody d v)
      × (has v (voice_room_peers d (serve_all rs [])) ≡ attend_all rs nobody d v)
      × (voice_signal username m (serve_all rs []) ≡ relayed username m (attend_all rs nobody))
unfolding voice_signal
serve_all-refines rs username d v m =
    let rooms = serve_all rs [] in
    let h = serve_all-IsShown rs [] nobody (unfold voice_room_has lookup in λ _ _. refl) in
    (
      h d v,
      has-voice_room_peers d v rooms ∙ h d v,
      ground (arith, h m.channel_id username, h m.channel_id m.recipient),
    )
