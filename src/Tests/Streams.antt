-- ===== src/Tests/Streams.antt =====
-- Live streams: the messages of nexus_server/ws_handlers.go.
use phazechat_world.Prelude.{◌≡◌, ◌⊎◌, true, not, ◌&&◌, ◌||◌, List, [], ◌∷◌, String, any, ◌==◌}
use phazechat_world.Streams.{
  Streams, Message, signal, stream_signal, stream_are_participants, stream_evict_user,
}
use phazechat_world.Streams.Access.{
  Request, starts, joins, serve_all, is_join, stream_signal-serve_all,
  stream_are_participants-stream_evict_user,
}

abbrev to_user : String → Message
to_user recipient = record { recipient = recipient; body = "offer"; sdp = "v=0"; candidate = "" }

abbrev show : List Request
show = starts "alice" (to_user "") ∷ joins "bob" (to_user "alice") ∷ []

stream_signal-serve_all_example :
    (stream_signal "alice" (to_user "bob") (serve_all show []) ≡ [])
    ⊎ ((stream_signal "alice" (to_user "bob") (serve_all show [])
          ≡ signal "alice" (to_user "bob") ∷ [])
        × ((any (is_join "alice" "bob") show || any (is_join "bob" "alice") show) ≡ true))
stream_signal-serve_all_example = stream_signal-serve_all show "alice" (to_user "bob")

abbrev one_stream : Streams
one_stream = ("alice", record { title = "chess"; viewers = "bob" ∷ "carol" ∷ [] }) ∷ []

stream_are_participants-stream_evict_user_example :
    stream_are_participants "alice" "carol" (stream_evict_user "bob" one_stream).0 ≡ (
      not ("bob" == "alice")
      && not ("bob" == "carol")
      && stream_are_participants "alice" "carol" one_stream)
stream_are_participants-stream_evict_user_example =
    stream_are_participants-stream_evict_user "bob" "alice" "carol" one_stream
