-- ===== src/Voice/Members.antt =====
-- Voice rooms: who is in which room after each operation of nexus_server/main.go.
use phazechat_world.Prelude.{
  ◌≡◌, refl, inl, inr, false, not, ◌&&◌, ◌||◌, none, some, List, [], ◌∷◌, arith, eq_iff, String,
  lookup, lookup-insert, lookup-delete, ◌==◌, if◌then◌else◌, Option-cases, has, without, including,
  has-without, has-including, is_empty,
}
use phazechat_world.Voice.{
  Rooms, members_of, voice_room_join, store_room, voice_room_leave, voice_room_has, evicted,
  evict_rooms,
}

pub voice_room_has-voice_room_join :
    (c d u v : String) (rooms : Rooms)
    → voice_room_has d v (voice_room_join c u rooms)
      ≡ (c == d && u == v || voice_room_has d v rooms)
unfolding voice_room_has voice_room_join members_of has
voice_room_has-voice_room_join c d u v rooms = ground (
  arith,
  eq_iff c d,
  lookup-insert c d (including u (members_of (lookup c rooms))) rooms,
  has-including u v (members_of (lookup c rooms)),
)

pub lookup-store_room :
    (c d : String) (room : List String) (rooms : Rooms)
    → lookup d (store_room c room rooms)
      ≡ (if c == d then (if is_empty room then none else some room) else lookup d rooms)
unfolding store_room
lookup-store_room c d [] rooms = lookup-delete c d rooms
lookup-store_room c d (u ∷ us) rooms = lookup-insert c d (u ∷ us) rooms

has-store_room :
    (c d v : String) (room : List String) (rooms : Rooms)
    → voice_room_has d v (store_room c room rooms)
      ≡ (if c == d then has v room else voice_room_has d v rooms)
unfolding voice_room_has has
has-store_room c d v [] rooms = ground (arith, lookup-store_room c d [] rooms)
has-store_room c d v (u ∷ us) rooms = ground (arith, lookup-store_room c d (u ∷ us) rooms)

pub voice_room_has-voice_room_leave :
    (c d u v : String) (rooms : Rooms)
    → voice_room_has d v (voice_room_leave c u rooms)
      ≡ (not (c == d && u == v) && voice_room_has d v rooms)
unfolding voice_room_leave voice_room_has
voice_room_has-voice_room_leave c d u v rooms = elim (Option-cases (lookup c rooms)) [
  | inl e ↦ ground (arith, eq_iff c d)
  | inr (room, e) ↦
      ground (arith, eq_iff c d, has-store_room c d v (without u room) rooms, has-without u v room)
]

pub lookup-evict_rooms :
    (u d : String) (rooms : Rooms)
    → lookup d (evict_rooms u rooms)
      ≡ (elim (lookup d rooms) [ none ↦ none | some room ↦ evicted u room ])
unfolding lookup evict_rooms
lookup-evict_rooms u d [] = refl
lookup-evict_rooms u d ((c, room) ∷ rooms) =
    ground
      (arith, eq_iff c d, lookup-delete c d (evict_rooms u rooms), lookup-evict_rooms u d rooms)

has-is_empty : (v : String) (us : List String) → has v us ≡ (not (is_empty us) && has v us)
unfolding has
has-is_empty v [] = refl
has-is_empty v (u ∷ us) = refl

has-evicted :
    (u v : String) (room : List String)
    → (elim (evicted u room) [ none ↦ false | some r ↦ has v r ]) ≡ (not (u == v) && has v room)
unfolding evicted
has-evicted u v room =
    ground (arith, has-without u v room, eq_iff u v, has-is_empty v (without u room))

pub voice_room_has-evict_rooms :
    (u d v : String) (rooms : Rooms)
    → voice_room_has d v (evict_rooms u rooms) ≡ (not (u == v) && voice_room_has d v rooms)
unfolding voice_room_has
voice_room_has-evict_rooms u d v rooms = elim (Option-cases (lookup d rooms)) [
  | inl e ↦ ground (arith, lookup-evict_rooms u d rooms)
  | inr (room, e) ↦ ground (arith, lookup-evict_rooms u d rooms, has-evicted u v room)
]
