-- ===== src/Convos.antt =====
-- Group conversations: the tables of nexus_server/main.go and the convo_ messages of
-- nexus_server/ws_handlers.go. A handler gives the tables after it and what it sends; the table of
-- friends is an argument, as are the random id and whether a message reaches a user.
pub mod Rows
pub mod Invites
use phazechat_world.Prelude.{
  ℕ, zero, suc, ◌+◌, ◌-◌, ◌*◌, ◌/◌, ◌%◌, ◌≤◌, ◌<◌, min, max, ◌≡◌, refl, sym, ap, subst, ◌∙◌, ◌≢◌,
  ◌↔◌, ◌⊎◌, inl, inr, Bool, true, false, not, ◌&&◌, ◌||◌, Option, none, some, List, [], ◌∷◌, ◌++◌,
  map, arith, eq_iff, eq_refl, String, Map, lookup, insert, delete, retain, guarded, lookup-insert,
  lookup-delete, lookup-retain, modify, update_all, apply, lookup-modify, lookup-update_all,
  map_laws, length, keep, any, All, length-append, length-keep-le, get_elem?, All-keep, keep-All,
  All-get, get_elem?-total, keep-append, any-keep, any-append, keep-none, ltb, leb, eqb, ◌==◌,
  if◌then◌else◌, Bool-cases, Option-cases, trim_space, has, without, including, has-without,
  has-including, has-All, first_row, change_first, change_rows, keep-change_first,
  keep-change_first_same, Ascends, Ascends-append, Ascends-change_first, change_rows-first,
  is_empty, starts_with, after_first, before_first, ends_with, split_at,
}
use Prim.Native.String.{len}
use phazechat_world.Contacts.{Contacts, get_friends}

-- A row of `conversations`, by its id.
pub record Convo : Type 0 where
  pub name : String
  pub created_by : String

-- A row of `conversation_members`.
pub record Membership : Type 0 where
  pub convo_id : String
  pub username : String

-- A row of `convo_messages`.
pub record ConvoMessage : Type 0 where
  pub convo_id : String
  pub sender : String
  pub body : String

-- A row of `offline_messages` of the type convo_msg.
pub record Missed : Type 0 where
  pub sender : String
  pub recipient : String
  pub body : String
  pub convo : String

pub record Convos : Type 0 where
  pub conversations : Map Convo
  pub members : List Membership
  pub messages : List ConvoMessage
  pub offline : List Missed

-- The fields of `NexusMessage` that are read here.
pub record Message : Type 0 where
  pub convo_id : String
  pub convo_name : String
  pub members : List String
  pub recipient : String
  pub body : String
  pub envelopes : Map String

pub data Notice : Type 0 where
  failed : String → String → Notice
  created : String → String → List String → String → Notice
  updated : String → String → List String → String → String → Notice
  removed : String → String → Notice
  left : String → String → Notice
  message : String → String → String → Notice
  history : String → List ConvoMessage → Notice

pub data Event : Type 0 where
  told : Notice → Event
  sent : String → Notice → Event

unfoldable pub is_membership : String → String → Membership → Bool
is_membership id username r = r.convo_id == id && r.username == username

unfoldable pub is_convo_member : String → String → Convos → Bool
unfolding is_membership
is_convo_member id username s = any (is_membership id username) s.members

-- `INSERT OR IGNORE`
unfoldable pub add_member : String → String → List Membership → List Membership
unfolding is_membership
add_member id username rows =
    if any (is_membership id username) rows
    then rows
    else rows ++ record { convo_id = id; username = username } ∷ []

unfoldable pub add_members : String → List String → List Membership → List Membership
unfolding add_member
add_members id [] rows = rows
add_members id (u ∷ us) rows = add_members id us (add_member id u rows)

-- The loop of `createConversation`, with the users seen.
unfoldable pub add_unseen : String → List String → List String → List Membership → List Membership
unfolding add_member
add_unseen id seen [] rows = rows
add_unseen id seen (u ∷ us) rows =
    let skipped = add_unseen id seen us rows in
    let added = add_unseen id (u ∷ seen) us (add_member id u rows) in
    if has u seen then skipped else added

-- `none` where the id is taken.
unfoldable pub create_conversation : String → String → String → List String → Convos → Option Convos
unfolding add_unseen
create_conversation id name creator members s = elim (lookup id s.conversations) [
  | some q ↦ none
  | none ↦ some (record s {
    conversations = insert id (record { name = name; created_by = creator }) s.conversations;
    members = add_unseen id [] (creator ∷ members) s.members;
  })
]

unfoldable pub conversation_members : String → Convos → List String
conversation_members id s = map (λ r. r.username) (keep (λ r. r.convo_id == id) s.members)

unfoldable pub conversation_creator : String → Convos → Option String
conversation_creator id s = elim (lookup id s.conversations) [
  | none ↦ none
  | some q ↦ some q.created_by
]

-- The name, empty where there is no such conversation.
unfoldable pub conversation_name : String → Convos → String
conversation_name id s = elim (lookup id s.conversations) [ none ↦ "" | some q ↦ q.name ]

unfoldable pub rename_conversation : String → String → Convos → Convos
rename_conversation id name s = record s {
  conversations = modify (λ q. record q { name = name }) id s.conversations;
}

unfoldable pub leave_conversation : String → String → Convos → Convos
unfolding is_membership
leave_conversation id username s = record s {
  members = keep (λ r. not (is_membership id username r)) s.members;
}

unfoldable pub send_each : List String → Notice → List Event
send_each us n = map (λ u. sent u n) us

unfoldable pub eligible_members : Contacts → String → Message → List String
unfolding get_friends
eligible_members c username m = keep (λ u. has u (username ∷ get_friends username c)) m.members

unfoldable pub announce_convo :
    String → String → Message → Option Convos → Convos → Convos × List Event
unfolding conversation_members send_each
announce_convo id username m none s = (s, told (failed "" "could not create conversation") ∷ [])
announce_convo id username m (some s') s = (
  s',
  send_each (conversation_members id s')
      (created id m.convo_name (conversation_members id s') username),
)

unfoldable pub create_with :
    Option String → List String → String → Message → Convos → Convos × List Event
unfolding announce_convo create_conversation
create_with none us username m s = (s, told (failed "" "server error") ∷ [])
create_with (some id) us username m s =
    announce_convo id username m (create_conversation id m.convo_name username us s) s

unfoldable pub convo_create :
    Contacts → Option String → String → Message → Convos → Convos × List Event
unfolding eligible_members create_with
convo_create c new_id username m s =
    if username == ""
    then (s, [])
    else if is_empty (eligible_members c username m)
    then (s, told (failed "" "No eligible members — add friends first") ∷ [])
    else create_with new_id (eligible_members c username m) username m s

-- What a member is sent: the envelope made for the member, where there is one.
unfoldable pub body_for : String → Message → String
body_for username m = elim (lookup username m.envelopes) [ none ↦ m.body | some e ↦ e ]

-- A row for a member whom the message did not reach.
unfoldable pub store_missed : String → String → Message → Convos → Convos
unfolding body_for
store_missed username u m s = record s {
  offline =
      s.offline
      ++ record { sender = username; recipient = u; body = body_for u m; convo = m.convo_id } ∷ [];
}

unfoldable pub after_send : Bool → String → String → Message → Convos → Convos
unfolding store_missed
after_send reached username u m s = if reached then s else store_missed username u m s

unfoldable pub fan_out :
    (String → Bool) → String → Message → List String → Convos → Convos × List Event
unfolding body_for after_send
fan_out reaches username m [] s = (s, [])
fan_out reaches username m (u ∷ us) s =
    let skipped = fan_out reaches username m us s in
    let (s', rest) = fan_out reaches username m us (after_send (reaches u) username u m s) in
    if u == username
    then skipped
    else (s', sent u (message username (body_for u m) m.convo_id) ∷ rest)

unfoldable pub convo_msg : (String → Bool) → String → Message → Convos → Convos × List Event
unfolding conversation_members fan_out
convo_msg reaches username m s =
    if username == "" || m.convo_id == ""
    then (s, [])
    else if ltb 65536 (len m.body)
    then (s, [])
    else if not (has username (conversation_members m.convo_id s))
    then (s, [])
    else fan_out reaches username m (conversation_members m.convo_id s) (record s {
      messages =
          s.messages ++ record { convo_id = m.convo_id; sender = username; body = m.body } ∷ [];
    })

unfoldable pub convo_leave : String → Message → Convos → Convos × List Event
unfolding is_convo_member leave_conversation conversation_members send_each
convo_leave username m s =
    let s' = leave_conversation m.convo_id username s in
    if username == "" || m.convo_id == ""
    then (s, [])
    else if not (is_convo_member m.convo_id username s)
    then (s, [])
    else (s', send_each (conversation_members m.convo_id s') (left username m.convo_id))

unfoldable pub new_members : Contacts → String → Message → Convos → List String
unfolding conversation_members get_friends
new_members c username m s =
    keep (λ u. not (has u (conversation_members m.convo_id s)) && has u (get_friends username c))
      m.members

unfoldable pub creator_or_none : Option String → String
creator_or_none none = ""
creator_or_none (some u) = u

unfoldable pub convo_add_member : Contacts → String → Message → Convos → Convos × List Event
unfolding new_members add_members conversation_name conversation_creator send_each creator_or_none
convo_add_member c username m s =
    let s' = record s { members = add_members m.convo_id (new_members c username m s) s.members } in
    if username == "" || m.convo_id == "" || is_empty m.members
    then (s, [])
    else if not (has username (conversation_members m.convo_id s))
    then (s, told (failed m.convo_id "not a member of this group") ∷ [])
    else if is_empty (new_members c username m s)
    then (
      s,
      told (failed m.convo_id "no eligible new members — they need to be your friend first") ∷ [],
    )
    else (
      s',
      send_each (conversation_members m.convo_id s') (
          updated m.convo_id (conversation_name m.convo_id s') (conversation_members m.convo_id s')
            username (creator_or_none (conversation_creator m.convo_id s'))),
    )

unfoldable pub is_creator : String → String → Convos → Bool
unfolding conversation_creator
is_creator id username s = elim (conversation_creator id s) [
  | none ↦ false
  | some u ↦ u == username
]

unfoldable pub convo_remove_member : String → Message → Convos → Convos × List Event
unfolding is_creator is_convo_member leave_conversation conversation_members conversation_name
    send_each
convo_remove_member username m s =
    let s' = leave_conversation m.convo_id m.recipient s in
    if username == "" || m.convo_id == "" || m.recipient == ""
    then (s, [])
    else if m.recipient == username
    then (s, told (failed m.convo_id "use convo_leave to remove yourself") ∷ [])
    else if not (is_creator m.convo_id username s)
    then (s, told (failed m.convo_id "only the group's creator can remove someone") ∷ [])
    else if not (is_convo_member m.convo_id m.recipient s)
    then (s, [])
    else (
      s',
      sent m.recipient (removed m.convo_id username)
          ∷ send_each (conversation_members m.convo_id s') (
              updated m.convo_id (conversation_name m.convo_id s')
                (conversation_members m.convo_id s') username username),
    )

unfoldable pub convo_rename : String → Message → Convos → Convos × List Event
unfolding trim_space is_creator rename_conversation conversation_members send_each
convo_rename username m s =
    let name = trim_space m.convo_name in
    let s' = rename_conversation m.convo_id name s in
    if username == "" || m.convo_id == ""
    then (s, [])
    else if name == "" || ltb 100 (len name)
    then (s, told (failed m.convo_id "group name must be 1-100 characters") ∷ [])
    else if not (is_creator m.convo_id username s)
    then (s, told (failed m.convo_id "only the group's creator can rename it") ∷ [])
    else (
      s',
      send_each (conversation_members m.convo_id s')
          (updated m.convo_id name (conversation_members m.convo_id s') username username),
    )

unfoldable pub skip : ℕ → List ConvoMessage → List ConvoMessage
skip n [] = []
skip n (r ∷ rs) = let rest = skip (n - 1) rs in if eqb n 0 then r ∷ rs else rest

-- The last hundred rows, oldest first.
unfoldable pub convo_history : String → Message → Convos → List Event
unfolding is_convo_member skip
convo_history username m s =
    let rows = keep (λ r. r.convo_id == m.convo_id) s.messages in
    if username == "" || m.convo_id == ""
    then []
    else if not (is_convo_member m.convo_id username s)
    then []
    else told (history m.convo_id (skip (length rows - 100) rows)) ∷ []
