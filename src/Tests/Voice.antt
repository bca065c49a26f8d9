-- ===== src/Tests/Voice.antt =====
-- Voice rooms: the messages of nexus_server/ws_handlers.go.
use phazechat_world.Prelude.{
  ◌≡◌, refl, ◌⊎◌, true, false, not, ◌&&◌, List, [], ◌∷◌, String, lookup, insert, delete, ◌==◌, has,
  without, including, starts_with, any,
}
use phazechat_world.Spaces.{Spaces, is_server_member}
use phazechat_world.Voice.{
  Message, signal, voice_join, voice_signal, voice_room_evict_user, voice_room_has,
  voice_room_peers,
}
use phazechat_world.Voice.Access.{
  Request, joins, serve, serve_all, admits, is_used, voice_signal-serve_all,
  voice_room_evict_user-serve_all,
}
use phazechat_world.Voice.Refine.{nobody, attend_all, relayed, serve_all-refines}

abbrev one_space : Spaces
one_space = record {
  channels = ("lounge", record { server_id = "s1"; kind = "voice" }) ∷ [];
  members =
      record { server_id = "s1"; username = "alice"; role = "owner" }
      ∷ record { server_id = "s1"; username = "bob"; role = "member" }
      ∷ [];
}

abbrev to_lounge : String → Message
to_lounge recipient = record {
  recipient = recipient;
  channel_id = "lounge";
  body = "offer";
  sdp = "v=0";
  candidate = "";
}

abbrev evening : List Request
evening =
    joins one_space "alice" (to_lounge "")
    ∷ joins one_space "bob" (to_lounge "")
    ∷ joins one_space "eve" (to_lounge "")
    ∷ []

eve_stays_out : voice_room_has "lounge" "eve" (serve_all evening []) ≡ false
unfolding serve_all serve voice_room_has lookup insert delete has including without voice_join
    starts_with is_server_member
eve_stays_out = refl

abbrev without_bob : Spaces
without_bob = record one_space {
  members = record { server_id = "s1"; username = "alice"; role = "owner" } ∷ [];
}

-- What bob's leaving the space changes: bob can no longer join, and is in the room none the less.
left_space_keeps_room :
    (is_server_member "s1" "bob" without_bob ≡ false)
    × (voice_signal "bob"
          (to_lounge "alice")
          (serve_all (joins without_bob "bob" (to_lounge "") ∷ []) (serve_all evening []))
        ≡ signal "bob" (to_lounge "alice") ∷ [])
unfolding serve_all serve voice_room_has lookup insert delete has including without voice_join
    starts_with is_server_member voice_signal
left_space_keeps_room = (refl, refl)

voice_signal-serve_all_example :
    (voice_signal "alice" (to_lounge "bob") (serve_all evening []) ≡ [])
    ⊎ ((voice_signal "alice" (to_lounge "bob") (serve_all evening [])
          ≡ signal "alice" (to_lounge "bob") ∷ [])
        × (any (admits "lounge" "alice") evening ≡ true)
        × (any (admits "lounge" "bob") evening ≡ true))
voice_signal-serve_all_example = voice_signal-serve_all evening "alice" (to_lounge "bob")

voice_room_evict_user-serve_all_example :
    (is_used (lookup "lounge" (voice_room_evict_user "alice" (serve_all evening [])).0) ≡ true)
    × (voice_room_has "lounge" "bob" (voice_room_evict_user "alice" (serve_all evening [])).0
        ≡ (not ("alice" == "bob") && voice_room_has "lounge" "bob" (serve_all evening [])))
voice_room_evict_user-serve_all_example =
    voice_room_evict_user-serve_all evening "alice" "lounge" "bob"

serve_all-refines_example :
    (voice_room_has "lounge" "bob" (serve_all evening [])
      ≡ attend_all evening nobody "lounge" "bob")
    × (has "bob" (voice_room_peers "lounge" (serve_all evening []))
        ≡ attend_all evening nobody "lounge" "bob")
    × (voice_signal "alice" (to_lounge "bob") (serve_all evening [])
        ≡ relayed "alice" (to_lounge "bob") (attend_all evening nobody))
serve_all-refines_example = serve_all-refines evening "alice" "lounge" "bob" (to_lounge "bob")
