-- ===== src/Contacts/Messages.antt =====
-- Direct messages: the tables of nexus_server/main.go, and the messages about contacts of
-- nexus_server/ws_handlers.go. A handler gives the tables after it and what it sends; whether a
-- message reaches a live connection of its recipient is an argument.
use phazechat_world.Prelude.{
  Bool, true, false, not, ◌&&◌, ◌||◌, Option, none, some, List, [], ◌∷◌, ◌++◌, String, keep, any,
  ltb, ◌==◌, if◌then◌else◌, trim_space, has, change_rows,
}
use Prim.Native.String.{len}
use phazechat_world.Contacts.{
  Contacts, FriendError, is_blocked_error, duplicate, no_pending, is_blocked, block_user,
  unblock_user, list_blocks, get_friends, are_friends, send_friend_request, accept_friend_request,
  reject_friend_request, remove_friend, get_contact_groups, set_contact_group,
}

-- The fields of `NexusMessage` that are read here.
pub record Message : Type 0 where
  pub kind : String
  pub sender : String
  pub recipient : String
  pub body : String
  pub msg_id : String
  pub reaction : String

-- A row of `dm_messages`.
pub record Dm : Type 0 where
  pub msg_id : String
  pub sender : String
  pub recipient : String
  pub body : String
  pub edited : Bool
  pub deleted : Bool

pub record Reaction : Type 0 where
  pub msg_id : String
  pub username : String
  pub emoji : String

-- A row of `offline_messages`.
pub record Offline : Type 0 where
  pub sender : String
  pub recipient : String
  pub body : String
  pub msg_id : String

pub record Store : Type 0 where
  pub contacts : Contacts
  pub dms : List Dm
  pub reactions : List Reaction
  pub offline : List Offline

pub data Notice : Type 0 where
  friend_request_sent : String → Notice
  friend_error : String → Notice
  friend_request : String → Notice
  friend_accepted : String → Notice
  friend_removed : String → Notice
  block_error : Notice
  block_result : String → String → Notice
  blocks_list : List String → Notice
  msg_status : String → String → String → Notice
  relayed : Message → Notice
  edit_error : String → Notice
  typing : String → Notice
  read_receipt : String → String → Notice
  group_error : String → Notice
  contact_groups : List (String × String) → Notice

-- To the connection that asked, to every connection of a user, or to the bot.
pub data Event : Type 0 where
  bot : Message → Event
  told : Notice → Event
  sent : String → Notice → Event

unfoldable pub persist_dm : String → String → String → String → Store → Store
persist_dm msg_id sender recipient body st =
    if msg_id == "" || sender == "" || recipient == ""
    then st
    else if any (λ d. d.msg_id == msg_id) st.dms
    then st
    else record st {
      dms =
          st.dms
          ++ record {
            msg_id = msg_id;
            sender = sender;
            recipient = recipient;
            body = body;
            edited = false;
            deleted = false;
          }
            ∷ [];
    }

unfoldable pub edit_dm : String → String → String → Store → Store
edit_dm msg_id sender new_body st = record st {
  dms =
      change_rows (λ d. d.msg_id == msg_id && d.sender == sender && not d.deleted)
        (λ d. record d { body = new_body; edited = true }) st.dms;
}

unfoldable pub delete_dm : String → String → Store → Store
delete_dm msg_id sender st = record st {
  dms =
      change_rows (λ d. d.msg_id == msg_id && d.sender == sender)
        (λ d. record d { body = ""; deleted = true }) st.dms;
}

unfoldable pub is_reaction : String → String → String → Reaction → Bool
is_reaction msg_id user emoji r = r.msg_id == msg_id && r.username == user && r.emoji == emoji

unfoldable pub toggle_reaction : String → String → String → Store → Bool × Store
unfolding is_reaction
toggle_reaction msg_id user emoji st =
    if any (is_reaction msg_id user emoji) st.reactions
    then (
      false,
      record st { reactions = keep (λ r. not (is_reaction msg_id user emoji r)) st.reactions },
    )
    else (
      true,
      record st {
        reactions = st.reactions ++ record { msg_id = msg_id; username = user; emoji = emoji } ∷ [];
      },
    )

unfoldable pub store_offline_message : String → String → String → String → Store → Store
store_offline_message sender recipient body msg_id st = record st {
  offline =
      st.offline
      ++ record { sender = sender; recipient = recipient; body = body; msg_id = msg_id } ∷ [];
}

unfoldable pub is_cut : String → String → Store → Bool
unfolding is_blocked
is_cut a b st = is_blocked a b st.contacts || is_blocked b a st.contacts

-- What follows once the message may go out.
unfoldable pub deliver : Bool → Message → Store → Store × List Event
unfolding persist_dm store_offline_message
deliver reached m st =
    let st' = persist_dm m.msg_id m.sender m.recipient m.body st in
    if reached then (st', sent m.recipient (relayed m) ∷ []) else (
      store_offline_message m.sender m.recipient m.body m.msg_id st',
      sent m.recipient (relayed m) ∷ told (msg_status "delivered_offline" m.recipient "") ∷ [],
    )

unfoldable pub msg : String → Bool → Message → Store → Store × List Event
unfolding is_cut deliver
msg username reached m st =
    if username == ""
    then (st, [])
    else if m.recipient == "PhazeBot"
    then (st, bot (record m { sender = username }) ∷ [])
    else if is_cut m.recipient username st
    then (st, told (msg_status "delivered_offline" m.recipient "") ∷ [])
    else if ltb 65536 (len m.body)
    then (st, told (msg_status "error" m.recipient "message too long") ∷ [])
    else deliver reached (record m { sender = username }) st

unfoldable pub change_dm : String → Message → Store → Store
unfolding edit_dm delete_dm toggle_reaction
change_dm username m st =
    if m.kind == "msg_edit"
    then edit_dm m.msg_id username m.body st
    else if m.kind == "msg_delete"
    then delete_dm m.msg_id username st
    else if not (m.reaction == "")
    then (toggle_reaction m.msg_id username m.reaction st).1
    else st

-- The messages msg_edit, msg_delete and msg_react.
unfoldable pub msg_change : String → Message → Store → Store × List Event
unfolding is_cut change_dm
msg_change username m st =
    if username == "" || m.recipient == "" || m.msg_id == ""
    then (st, [])
    else if is_cut m.recipient username st
    then (st, [])
    else if m.kind == "msg_edit" && ltb 10000 (len m.body)
    then (st, told (edit_error "message too long") ∷ [])
    else (change_dm username m st, sent m.recipient (relayed (record m { sender = username })) ∷ [])

unfoldable pub typing_message : String → Message → Store → List Event
unfolding are_friends
typing_message username m st =
    if username == "" || m.recipient == ""
    then []
    else if not (are_friends username m.recipient st.contacts)
    then []
    else sent m.recipient (typing username) ∷ []

unfoldable pub read_receipt_message : String → Message → Store → List Event
unfolding are_friends
read_receipt_message username m st =
    if username == ""
    then []
    else if not (are_friends username m.recipient st.contacts)
    then []
    else sent m.recipient (read_receipt username m.body) ∷ []

unfoldable pub block : String → Message → Store → Store × List Event
unfolding block_user
block username m st =
    let (refused, c) = block_user username m.recipient st.contacts in
    if username == ""
    then (st, [])
    else if refused
    then (st, told block_error ∷ [])
    else (record st { contacts = c }, told (block_result "blocked" m.recipient) ∷ [])

unfoldable pub unblock : String → Message → Store → Store × List Event
unfolding unblock_user
unblock username m st = if username == "" then (st, []) else (
  record st { contacts = unblock_user username m.recipient st.contacts },
  told (block_result "unblocked" m.recipient) ∷ [],
)

unfoldable pub list_blocks_message : String → Store → List Event
unfolding list_blocks
list_blocks_message username st =
    if username == "" then [] else told (blocks_list (list_blocks username st.contacts)) ∷ []

unfoldable pub answer_request :
    String → Message → Option FriendError × Contacts → Store → Store × List Event
answer_request username m (some is_blocked_error, c) st =
    (st, told (friend_request_sent m.recipient) ∷ [])
answer_request username m (some duplicate, c) st =
    (st, told (friend_error "Already friends or request already sent") ∷ [])
answer_request username m (some no_pending, c) st =
    (st, told (friend_error "Could not send friend request") ∷ [])
answer_request username m (none, c) st = (
  record st { contacts = c },
  told (friend_request_sent m.recipient) ∷ sent m.recipient (friend_request username) ∷ [],
)

unfoldable pub friend_request_message : String → Message → Store → Store × List Event
unfolding send_friend_request answer_request
friend_request_message username m st =
    if username == ""
    then (st, [])
    else answer_request username m (send_friend_request username m.recipient st.contacts) st

unfoldable pub requester_of : Message → String
requester_of m = if m.recipient == "" then m.body else m.recipient

unfoldable pub answer_accept :
    String → String → Option FriendError × Contacts → Store → Store × List Event
answer_accept username requester (some e, c) st =
    (st, told (friend_error "Could not accept friend request") ∷ [])
answer_accept username requester (none, c) st = (
  record st { contacts = c },
  told (friend_accepted requester) ∷ sent requester (friend_accepted username) ∷ [],
)

unfoldable pub friend_accept : String → Message → Store → Store × List Event
unfolding accept_friend_request requester_of answer_accept
friend_accept username m st =
    if username == ""
    then (st, [])
    else answer_accept username (requester_of m)
        (accept_friend_request (requester_of m) username st.contacts) st

unfoldable pub friend_reject : String → Message → Store → Store × List Event
unfolding reject_friend_request
friend_reject username m st =
    if username == ""
    then (st, [])
    else (record st { contacts = reject_friend_request m.sender username st.contacts }, [])

unfoldable pub friend_remove : String → Message → Store → Store × List Event
unfolding remove_friend
friend_remove username m st = if username == "" then (st, []) else (
  record st { contacts = remove_friend username m.recipient st.contacts },
  sent m.recipient (friend_removed username) ∷ [],
)

unfoldable pub file_contact : String → Message → String → Store → Store × List Event
unfolding set_contact_group get_contact_groups
file_contact username m group_name st =
    let c = set_contact_group username m.recipient group_name st.contacts in
    if ltb 60 (len group_name)
    then (st, told (group_error "group name must be 60 characters or fewer") ∷ [])
    else (record st { contacts = c }, told (contact_groups (get_contact_groups username c)) ∷ [])

unfoldable pub contact_group_set : String → Message → Store → Store × List Event
unfolding get_friends file_contact
contact_group_set username m st =
    if username == "" || m.recipient == ""
    then (st, [])
    else if not (has m.recipient (get_friends username st.contacts))
    then (st, told (group_error "not a contact") ∷ [])
    else file_contact username m (trim_space m.body) st
