-- ===== src/Contacts/Kept.antt =====
-- What the messages of nexus_server/ws_handlers.go leave alone of the tables of contacts.
use phazechat_world.Prelude.{◌≡◌, refl, Bool, Option, none, some, arith, String}
use phazechat_world.Contacts.{
  Contacts, FriendError, set_contact_group, send_friend_request, accept_friend_request,
  reject_friend_request, remove_friend, block_user, unblock_user, is_blocked_error, duplicate,
  no_pending,
}
use phazechat_world.Contacts.Messages.{
  Message, Store, msg, msg_change, contact_group_set, deliver, change_dm, persist_dm,
  store_offline_message, edit_dm, delete_dm, toggle_reaction, file_contact, answer_request,
  answer_accept, friend_request_message, friend_accept, friend_reject, friend_remove, requester_of,
  block, unblock,
}

pub msg-contacts :
    (username : String) (reached : Bool) (m : Message) (st : Store)
    → (msg username reached m st).0.contacts ≡ st.contacts
unfolding msg deliver persist_dm store_offline_message
msg-contacts username reached m st = ground arith

pub msg_change-contacts :
    (username : String) (m : Message) (st : Store)
    → (msg_change username m st).0.contacts ≡ st.contacts
unfolding msg_change change_dm edit_dm delete_dm toggle_reaction
msg_change-contacts username m st = ground arith

pub contact_group_set-kept :
    (username : String) (m : Message) (st : Store)
    → ((contact_group_set username m st).0.contacts.friends ≡ st.contacts.friends)
      × ((contact_group_set username m st).0.contacts.blocks ≡ st.contacts.blocks)
unfolding contact_group_set file_contact set_contact_group
contact_group_set-kept username m st = ground arith

pub block-friends :
    (username : String) (m : Message) (st : Store)
    → (block username m st).0.contacts.friends ≡ st.contacts.friends
unfolding block block_user
block-friends username m st = ground arith

pub unblock-friends :
    (username : String) (m : Message) (st : Store)
    → (unblock username m st).0.contacts.friends ≡ st.contacts.friends
unfolding unblock unblock_user
unblock-friends username m st = ground arith

answer_request-blocks :
    (username : String) (m : Message) (e : Option FriendError) (c : Contacts) (st : Store)
    → c.blocks ≡ st.contacts.blocks
    → (answer_request username m (e, c) st).0.contacts.blocks ≡ st.contacts.blocks
unfolding answer_request
answer_request-blocks username m none c st h = h
answer_request-blocks username m (some is_blocked_error) c st h = refl
answer_request-blocks username m (some duplicate) c st h = refl
answer_request-blocks username m (some no_pending) c st h = refl

answer_accept-blocks :
    (username requester : String) (e : Option FriendError) (c : Contacts) (st : Store)
    → c.blocks ≡ st.contacts.blocks
    → (answer_accept username requester (e, c) st).0.contacts.blocks ≡ st.contacts.blocks
unfolding answer_accept
answer_accept-blocks username requester none c st h = h
answer_accept-blocks username requester (some e) c st h = refl

send_friend_request-blocks :
    (from to : String) (c : Contacts) → (send_friend_request from to c).1.blocks ≡ c.blocks
unfolding send_friend_request
send_friend_request-blocks from to c = ground arith

accept_friend_request-blocks :
    (from to : String) (c : Contacts) → (accept_friend_request from to c).1.blocks ≡ c.blocks
unfolding accept_friend_request
accept_friend_request-blocks from to c = ground arith

pub friend_request_message-blocks :
    (username : String) (m : Message) (st : Store)
    → (friend_request_message username m st).0.contacts.blocks ≡ st.contacts.blocks
unfolding friend_request_message
friend_request_message-blocks username m st =
    let (e, c) = send_friend_request username m.recipient st.contacts in
    ground (
      arith,
      answer_request-blocks username m e c st
          (send_friend_request-blocks username m.recipient st.contacts),
    )

pub friend_accept-blocks :
    (username : String) (m : Message) (st : Store)
    → (friend_accept username m st).0.contacts.blocks ≡ st.contacts.blocks
unfolding friend_accept
friend_accept-blocks username m st =
    let (e, c) = accept_friend_request (requester_of m) username st.contacts in
    ground (
      arith,
      answer_accept-blocks username (requester_of m) e c st
          (accept_friend_request-blocks (requester_of m) username st.contacts),
    )

pub friend_reject-blocks :
    (username : String) (m : Message) (st : Store)
    → (friend_reject username m st).0.contacts.blocks ≡ st.contacts.blocks
unfolding friend_reject reject_friend_request
friend_reject-blocks username m st = ground arith

pub friend_remove-blocks :
    (username : String) (m : Message) (st : Store)
    → (friend_remove username m st).0.contacts.blocks ≡ st.contacts.blocks
unfolding friend_remove remove_friend
friend_remove-blocks username m st = ground arith
