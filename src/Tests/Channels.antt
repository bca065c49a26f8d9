-- ===== src/Tests/Channels.antt =====
-- Messages in channels: the channel_ messages of nexus_server/ws_handlers.go.
use phazechat_world.Prelude.{◌≡◌, refl, false, some, List, [], ◌∷◌, String, lookup}
use phazechat_world.Spaces.{Spaces, is_server_member}
use phazechat_world.Channels.{Post, Posts, Message, find_post, channel_react}
use phazechat_world.Channels.Kept.{Reads}
use phazechat_world.Channels.Authors.{
  Request, posts, reacts, edits, deletes, pins, serve_all, touches, serve_all-Reads,
}

abbrev club : Spaces
club = record {
  channels = ("general", record { server_id = "s1"; kind = "text" }) ∷ [];
  members =
      record { server_id = "s1"; username = "alice"; role = "owner" }
      ∷ record { server_id = "s1"; username = "bob"; role = "member" }
      ∷ record { server_id = "s1"; username = "carol"; role = "member" }
      ∷ [];
}

abbrev says : String → Message
says body = record { channel_id = "general"; msg_id = "7"; body = body; reaction = "+" }

abbrev hello : Post
hello = record {
  id = 7;
  channel_id = "general";
  sender = "bob";
  body = "hello";
  edited = false;
  deleted = false;
  pinned = false;
}

abbrev before : Posts
before = record { rows = hello ∷ []; reactions = []; next_id = 8 }

-- The owner may not edit it; eve, who is no member, and carol, who is one, may not delete it.
abbrev meddling : List Request
meddling =
    posts club "bob" (says "more")
    ∷ reacts club (some 7) "alice" (says "")
    ∷ edits club (some 7) "alice" (says "goodbye")
    ∷ deletes club (λ u. false) (some 7) "eve" (says "")
    ∷ deletes club (λ u. false) (some 7) "carol" (says "")
    ∷ pins club (some 7) "alice" (says "")
    ∷ []

serve_all-Reads_example : Reads 7 hello (serve_all meddling before).rows
unfolding touches find_post lookup
serve_all-Reads_example =
    serve_all-Reads 7 hello meddling before refl (refl, (refl, (refl, (refl, (refl, (refl, tt))))))

-- A reaction names any message by its id, also one of another channel.
reaction_elsewhere :
    (channel_react club (some 9) "bob" (says "") before).0.reactions
    ≡ record { msg_id = 9; emoji = "+"; username = "bob" } ∷ []
unfolding channel_react lookup is_server_member
reaction_elsewhere = refl
