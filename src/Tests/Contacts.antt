-- ===== src/Tests/Contacts.antt =====
-- Contacts and direct messages: runs of the messages of nexus_server/ws_handlers.go.
use phazechat_world.Prelude.{◌≡◌, refl, true, ◌||◌, List, [], ◌∷◌, change_rows}
use phazechat_world.Contacts.{are_friends}
use phazechat_world.Contacts.Messages.{Message, block}
use phazechat_world.Contacts.Runs.{Request, asks, accepts, writes, serve, serve_all, no_contacts}
use phazechat_world.Contacts.Consent.{agreed, are_friends-serve_all}
use phazechat_world.Contacts.Blocking.{lifts, to, IsSilenced, block-serve_all}

abbrev blank : Message
blank = record {
  kind = "msg";
  sender = "";
  recipient = "";
  body = "hi";
  msg_id = "m1";
  reaction = "";
}

abbrev acquaintance : List Request
acquaintance =
    asks "alice" (to "bob" blank)
    ∷ writes true "alice" (to "bob" blank)
    ∷ accepts "bob" (to "alice" blank)
    ∷ []

friends_now : are_friends "bob" "alice" (serve_all acquaintance no_contacts).contacts ≡ true
unfolding serve_all serve no_contacts are_friends change_rows
friends_now = refl

are_friends-serve_all_example :
    (agreed "bob" "alice" acquaintance || agreed "alice" "bob" acquaintance) ≡ true
are_friends-serve_all_example = are_friends-serve_all "bob" "alice" acquaintance friends_now

-- An account that nobody accepted but itself is its own friend.
abbrev alone : List Request
alone = asks "eve" (to "eve" blank) ∷ accepts "eve" (to "eve" blank) ∷ []

own_friend : are_friends "eve" "eve" (serve_all alone no_contacts).contacts ≡ true
unfolding serve_all serve no_contacts are_friends change_rows
own_friend = refl

block-serve_all_example :
    (let st' = serve_all acquaintance (block "alice" (to "bob" blank) no_contacts).0 in
      IsSilenced "bob" "alice" true blank st' × IsSilenced "alice" "bob" true blank st')
block-serve_all_example =
    block-serve_all "alice" "bob" blank blank acquaintance true no_contacts (λ e. cc) (λ e. cc)
      (λ e. cc) (λ e. cc) (λ e. cc)
      ((unfold lifts in refl), ((unfold lifts in refl), ((unfold lifts in refl), tt)))
