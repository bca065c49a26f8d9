-- ===== src/Convos/Invites.antt =====
-- Nobody is in a group conversation uninvited: the convo_ messages of
-- nexus_server/ws_handlers.go.
use phazechat_world.Prelude.{
  ◌≡◌, refl, subst, ◌⊎◌, inl, inr, Bool, true, false, not, ◌&&◌, ◌||◌, Option, none, some, List, [],
  ◌∷◌, map, arith, String, lookup, keep, any, any-keep, ◌==◌, Option-cases, has,
}
use phazechat_world.Contacts.{Contacts, get_friends}
use phazechat_world.Convos.{
  Membership, Convos, Message, Event, sent, told, is_membership, add_members, add_unseen,
  create_conversation, conversation_members, leave_conversation, eligible_members, announce_convo,
  create_with, convo_create, fan_out, convo_msg, after_send, rename_conversation, convo_leave,
  new_members, convo_add_member, convo_remove_member, convo_rename,
}
use phazechat_world.Convos.Rows.{
  in_rows, in_rows-add_members, in_rows-add_unseen, has-keep, has-cons, with_message,
  convo_msg-members,
}

-- The messages that change the tables, with the user who sends them and, where it is read, the table
-- of friends at that time.
pub data Request : Type 0 where
  creates : Contacts → Option String → String → Message → Request
  posts : (String → Bool) → String → Message → Request
  leaves : String → Message → Request
  adds : Contacts → String → Message → Request
  removes : String → Message → Request
  renames : String → Message → Request

unfoldable pub serve : Request → Convos → Convos
unfolding convo_create convo_msg convo_leave convo_add_member convo_remove_member convo_rename
serve (creates c new_id username m) s = (convo_create c new_id username m s).0
serve (posts reaches username m) s = (convo_msg reaches username m s).0
serve (leaves username m) s = (convo_leave username m s).0
serve (adds c username m) s = (convo_add_member c username m s).0
serve (removes username m) s = (convo_remove_member username m s).0
serve (renames username m) s = (convo_rename username m s).0

unfoldable pub serve_all : List Request → Convos → Convos
unfolding serve
serve_all [] s = s
serve_all (r ∷ rs) s = serve_all rs (serve r s)

-- Whether a request invites a user to a conversation: it makes the conversation, or it adds to it,
-- the user is named, and is a friend of whoever sends it.
unfoldable pub invites : String → String → Request → Bool
invites id v (creates c none username m) = false
invites id v (creates c (some new_id) username m) =
    new_id == id && (username == v || (has v m.members && has v (get_friends username c)))
invites id v (adds c username m) =
    m.convo_id == id && has v m.members && has v (get_friends username c)
invites id v (posts reaches username m) = false
invites id v (leaves username m) = false
invites id v (removes username m) = false
invites id v (renames username m) = false

leave-in_rows :
    (d v id username : String) (s : Convos)
    → in_rows d v (leave_conversation id username s).members ≡ true
    → in_rows d v s.members ≡ true
unfolding leave_conversation
leave-in_rows d v id username s h =
    any-keep (is_membership d v) (λ r. not (is_membership id username r)) s.members h

made_members : Option Convos → List Membership → List Membership
made_members none rows = rows
made_members (some s) rows = s.members

announce_convo-members :
    (made : Option Convos) (id username : String) (m : Message) (s : Convos)
    → (announce_convo id username m made s).0.members ≡ made_members made s.members
unfolding announce_convo made_members
announce_convo-members none id username m s = refl
announce_convo-members (some s') id username m s = refl

create_conversation-members :
    (id name username : String) (us : List String) (s : Convos)
    → (made_members (create_conversation id name username us s) s.members ≡ s.members)
      ⊎ (made_members (create_conversation id name username us s) s.members
          ≡ add_unseen id [] (username ∷ us) s.members)
unfolding create_conversation made_members
create_conversation-members id name username us s =
    elim (Option-cases (lookup id s.conversations)) [
      | inl e ↦ inr (rw (e, made_members, create_conversation) refl)
      | inr (q, e) ↦ inl (rw (e, made_members, create_conversation) refl)
    ]

created_in_rows :
    (id d v username : String) (us : List String) (rows new : List Membership)
    → (new ≡ rows) ⊎ (new ≡ add_unseen id [] (username ∷ us) rows)
    → in_rows d v new ≡ true
    → (in_rows d v rows || (id == d && (username == v || has v us))) ≡ true
unfolding has
created_in_rows id d v username us rows new (inl e) h =
    ground (arith, subst (λ l. in_rows d v l ≡ true) e h)
created_in_rows id d v username us rows new (inr e) h =
    in_rows-add_unseen id d v [] (username ∷ us) rows (subst (λ l. in_rows d v l ≡ true) e h)

create_with-in_rows :
    (d v : String) (new_id : Option String) (c : Contacts) (username : String) (m : Message)
    (s : Convos)
    → in_rows d v (create_with new_id (eligible_members c username m) username m s).0.members ≡ true
    → (in_rows d v s.members || invites d v (creates c new_id username m)) ≡ true
unfolding create_with invites eligible_members
create_with-in_rows d v none c username m s h = ground (arith, h)
create_with-in_rows d v (some id) c username m s h =
    let us = eligible_members c username m in
    let made = create_conversation id m.convo_name username us s in
    let k =
      created_in_rows id d v username us s.members (made_members made s.members)
        (create_conversation-members id m.convo_name username us s)
        (subst (λ l. in_rows d v l ≡ true) (announce_convo-members made id username m s) h) in
    ground (
      arith,
      k,
      has-keep v (λ u. has u (username ∷ get_friends username c)) m.members,
      has-cons v username (get_friends username c),
    )

convo_add_member-members :
    (c : Contacts) (username : String) (m : Message) (s : Convos)
    → ((convo_add_member c username m s).0.members ≡ s.members)
      ⊎ ((convo_add_member c username m s).0.members
          ≡ add_members m.convo_id (new_members c username m s) s.members)
unfolding convo_add_member
convo_add_member-members c username m s = ground arith

added_in_rows :
    (d v : String) (c : Contacts) (username : String) (m : Message) (s : Convos)
    (new : List Membership)
    → (new ≡ s.members) ⊎ (new ≡ add_members m.convo_id (new_members c username m s) s.members)
    → in_rows d v new ≡ true
    → (in_rows d v s.members || invites d v (adds c username m)) ≡ true
unfolding invites new_members
added_in_rows d v c username m s new (inl e) h =
    ground (arith, subst (λ l. in_rows d v l ≡ true) e h)
added_in_rows d v c username m s new (inr e) h =
    let us = new_members c username m s in
    ground (
      arith,
      in_rows-add_members m.convo_id d v us s.members (subst (λ l. in_rows d v l ≡ true) e h),
      has-keep v
          (λ u. not (has u (conversation_members m.convo_id s)) && has u (get_friends username c))
          m.members,
    )

serve-in_rows :
    (d v : String) (r : Request) (s : Convos)
    → in_rows d v (serve r s).members ≡ true
    → (in_rows d v s.members || invites d v r) ≡ true
unfolding serve convo_create convo_leave convo_add_member convo_remove_member convo_rename
    new_members rename_conversation
serve-in_rows d v (creates c new_id username m) s h =
    ground (arith, h, create_with-in_rows d v new_id c username m s)
serve-in_rows d v (posts reaches username m) s h =
    ground (arith, h, convo_msg-members reaches username m s)
serve-in_rows d v (leaves username m) s h =
    ground (arith, h, leave-in_rows d v m.convo_id username s)
serve-in_rows d v (adds c username m) s h =
    added_in_rows d v c username m s (convo_add_member c username m s).0.members
      (convo_add_member-members c username m s) h
serve-in_rows d v (removes username m) s h =
    ground (arith, h, leave-in_rows d v m.convo_id m.recipient s)
serve-in_rows d v (renames username m) s h = ground (arith, h)

serve_all-invites :
    (d v : String) (rs : List Request) (s : Convos)
    → in_rows d v (serve_all rs s).members ≡ true
    → (in_rows d v s.members || any (invites d v) rs) ≡ true
unfolding serve_all
serve_all-invites d v [] s h = ground (arith, h)
serve_all-invites d v (r ∷ rs) s h =
    ground (arith, serve_all-invites d v rs (serve r s) h, serve-in_rows d v r s)

-- Whether a user is sent something.
abbrev pub is_to : String → Event → Bool
is_to v (told n) = false
is_to v (sent u n) = u == v

fan_out-is_to :
    (reaches : String → Bool) (username v : String) (m : Message) (us : List String) (s : Convos)
    → any (is_to v) (fan_out reaches username m us s).1 ≡ true
    → has v us ≡ true
unfolding fan_out has
fan_out-is_to reaches username v m [] s h = h
fan_out-is_to reaches username v m (u ∷ us) s h =
    let s' = after_send (reaches u) username u m s in
    ground
      (arith, h, fan_out-is_to reaches username v m us s, fan_out-is_to reaches username v m us s')

has-conversation_members :
    (id v : String) (rows : List Membership)
    → has v (map (λ r. r.username) (keep (λ r. r.convo_id == id) rows)) ≡ in_rows id v rows
unfolding has is_membership
has-conversation_members id v [] = refl
has-conversation_members id v (r ∷ rows) = ground (arith, has-conversation_members id v rows)

convo_msg-is_to :
    (reaches : String → Bool) (username v : String) (m : Message) (s : Convos)
    → any (is_to v) (convo_msg reaches username m s).1 ≡ true
    → (in_rows m.convo_id v s.members && in_rows m.convo_id username s.members) ≡ true
unfolding convo_msg conversation_members with_message
convo_msg-is_to reaches username v m s h = ground (
  arith,
  h,
  fan_out-is_to reaches username v m (conversation_members m.convo_id s)
      (with_message username m s),
  has-conversation_members m.convo_id v s.members,
  has-conversation_members m.convo_id username s.members,
)

unfoldable pub no_convos : Convos
no_convos = record { conversations = []; members = []; messages = []; offline = [] }

-- From empty tables, after any messages that create conversations, post, leave, add, remove and
-- rename, whatever the friends of each user are at each time: where a message to a conversation is
-- sent to a user, this user and the one who posts it have both made the conversation or been named
-- by a friend who made it or added to it.
pub convo_msg-serve_all :
    (rs : List Request) (reaches : String → Bool) (username v : String) (m : Message)
    → any (is_to v) (convo_msg reaches username m (serve_all rs no_convos)).1 ≡ true
    → (any (invites m.convo_id v) rs && any (invites m.convo_id username) rs) ≡ true
unfolding no_convos
convo_msg-serve_all rs reaches username v m h = ground (
  arith,
  convo_msg-is_to reaches username v m (serve_all rs no_convos) h,
  serve_all-invites m.convo_id v rs no_convos,
  serve_all-invites m.convo_id username rs no_convos,
)
