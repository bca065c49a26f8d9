-- ===== src/Tests/Convos.antt =====
-- Group conversations: the convo_ messages of nexus_server/ws_handlers.go.
use phazechat_world.Prelude.{
  ◌≡◌, refl, true, false, ◌&&◌, some, List, [], ◌∷◌, String, lookup, any, has,
}
use phazechat_world.Contacts.{Contacts}
use phazechat_world.Convos.{Message, convo_msg, convo_create}
use phazechat_world.Convos.Invites.{
  Request, creates, serve, serve_all, invites, is_to, no_convos, convo_msg-serve_all,
}

abbrev two_friends : Contacts
two_friends = record {
  friends = record { user_a = "alice"; user_b = "bob"; is_accepted = true } ∷ [];
  blocks = [];
  groups = [];
}

abbrev to_group : List String → Message
to_group members = record {
  convo_id = "c1";
  convo_name = "trip";
  members = members;
  recipient = "";
  body = "when?";
  envelopes = [];
}

-- Eve is no friend of alice.
abbrev trip : List Request
trip = creates two_friends (some "c1") "alice" (to_group ("bob" ∷ "eve" ∷ [])) ∷ []

sent_to_bob :
    any (is_to "bob") (convo_msg (λ u. true) "alice" (to_group []) (serve_all trip no_convos)).1
    ≡ true
unfolding convo_msg serve_all serve no_convos convo_create lookup has
sent_to_bob = refl

not_sent_to_eve :
    any (is_to "eve") (convo_msg (λ u. true) "alice" (to_group []) (serve_all trip no_convos)).1
    ≡ false
unfolding convo_msg serve_all serve no_convos convo_create lookup has
not_sent_to_eve = refl

convo_msg-serve_all_example :
    (any (invites "c1" "bob") trip && any (invites "c1" "alice") trip) ≡ true
convo_msg-serve_all_example =
    convo_msg-serve_all trip (λ u. true) "alice" "bob" (to_group []) sent_to_bob
