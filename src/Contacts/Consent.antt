-- ===== src/Contacts/Consent.antt =====
-- Whoever are friends have both agreed: nexus_server/main.go, sendFriendRequest and
-- acceptFriendRequest, over every run.
use phazechat_world.Prelude.{
  ◌≡◌, refl, subst, ◌⊎◌, inl, inr, Bool, true, false, not, ◌&&◌, ◌||◌, List, [], ◌∷◌, ◌++◌, arith,
  eq_iff, String, keep, any, any-keep, any-append, ◌==◌, Bool-cases, change_rows,
}
use phazechat_world.Contacts.{
  Friendship, is_pair, is_between, is_pending, are_friends, send_friend_request,
  accept_friend_request, reject_friend_request, remove_friend,
}
use phazechat_world.Contacts.Messages.{
  Message, Store, requester_of, friend_request_message, friend_accept, friend_reject, friend_remove,
  answer_request, answer_accept,
}
use phazechat_world.Contacts.Kept.{
  msg-contacts, msg_change-contacts, contact_group_set-kept, block-friends, unblock-friends,
}
use phazechat_world.Contacts.Runs.{
  Request, writes, revises, blocks_user, unblocks_user, asks, accepts, rejects, removes, files,
  serve, serve_all, no_contacts,
}

unfoldable pub is_asking : String → String → Request → Bool
is_asking a b (asks username m) = username == a && m.recipient == b
is_asking a b (writes reached username m) = false
is_asking a b (revises username m) = false
is_asking a b (blocks_user username m) = false
is_asking a b (unblocks_user username m) = false
is_asking a b (accepts username m) = false
is_asking a b (rejects username m) = false
is_asking a b (removes username m) = false
is_asking a b (files username m) = false

unfoldable pub is_accepting : String → String → Request → Bool
unfolding requester_of
is_accepting b a (accepts username m) = username == b && requester_of m == a
is_accepting b a (asks username m) = false
is_accepting b a (writes reached username m) = false
is_accepting b a (revises username m) = false
is_accepting b a (blocks_user username m) = false
is_accepting b a (unblocks_user username m) = false
is_accepting b a (rejects username m) = false
is_accepting b a (removes username m) = false
is_accepting b a (files username m) = false

-- One asked, and later the other accepted.
unfoldable pub agreed : String → String → List Request → Bool
agreed a b [] = false
agreed a b (r ∷ rs) = (is_asking a b r && any (is_accepting b a) rs) || agreed a b rs

abbrev has_accepted : String → String → List Friendship → Bool
has_accepted a b fs = any (λ f. f.is_accepted && is_pair a b f) fs

abbrev has_pending : String → String → List Friendship → Bool
has_pending a b fs = any (is_pending a b) fs

are_friends-has_accepted :
    (a b : String) (fs : List Friendship)
    → any (λ f. f.is_accepted && is_between a b f) fs ≡ (has_accepted a b fs || has_accepted b a fs)
unfolding is_between
are_friends-has_accepted a b [] = refl
are_friends-has_accepted a b (f ∷ fs) = ground (arith, are_friends-has_accepted a b fs)

any-accept_pending :
    (from to a b : String) (fs : List Friendship)
    → has_pending a b (change_rows (is_pending from to) (λ f. record f { is_accepted = true }) fs)
      ≡ true
    → has_pending a b fs ≡ true
unfolding change_rows is_pending is_pair
any-accept_pending from to a b [] h = h
any-accept_pending from to a b (f ∷ fs) h = ground (arith, h, any-accept_pending from to a b fs)

-- A row accepted is one that was accepted before or was pending between the two.
is_pair-same :
    (from to a b : String) (f : Friendship)
    → is_pair from to f ≡ true
    → is_pair a b f ≡ true
    → (from == a && to == b) ≡ true
unfolding is_pair
is_pair-same from to a b f h k =
    let p : f.user_a ≡ from = (eq_iff f.user_a from).0 (ground (arith, h)) in
    let q : f.user_b ≡ to = (eq_iff f.user_b to).0 (ground (arith, h)) in
    subst (λ u. (u == a && to == b) ≡ true) p (subst (λ v. (f.user_a == a && v == b) ≡ true) q k)

accept_row :
    (from to a b : String) (f : Friendship)
    → is_pending from to f ≡ true
    → is_pair a b f ≡ true
    → (is_pending a b f && (from == a && to == b)) ≡ true
unfolding is_pending
accept_row from to a b f h k =
    ground (arith, h, k, is_pair-same from to a b f (ground (arith, h)) k)

is_pair-accepted :
    (a b : String) (f : Friendship) → is_pair a b (record f { is_accepted = true }) ≡ is_pair a b f
unfolding is_pair
is_pair-accepted a b f = refl

any-accept_accepted :
    (from to a b : String) (fs : List Friendship)
    → has_accepted a b (change_rows (is_pending from to) (λ f. record f { is_accepted = true }) fs)
      ≡ true
    → (has_accepted a b fs || (has_pending a b fs && (from == a && to == b))) ≡ true
unfolding change_rows
any-accept_accepted from to a b [] h = ground (arith, h)
any-accept_accepted from to a b (f ∷ fs) h = elim (Bool-cases (is_pending from to f)) [
  | inl e ↦ elim (Bool-cases (is_pair a b f)) [
    | inl k ↦ ground (arith, accept_row from to a b f e k)
    | inr k ↦ ground (arith, h, e, k, is_pair-accepted a b f, any-accept_accepted from to a b fs)
  ]
  | inr e ↦ ground (arith, h, e, any-accept_accepted from to a b fs)
]

friend_request_message-friends :
    (username : String) (m : Message) (st : Store)
    → (let fs = (friend_request_message username m st).0.contacts.friends in
        (fs ≡ st.contacts.friends)
        ⊎ ((fs
            ≡ st.contacts.friends
              ++ record { user_a = username; user_b = m.recipient; is_accepted = false } ∷ [])))
unfolding friend_request_message send_friend_request answer_request
friend_request_message-friends username m st = ground arith

friend_accept-friends :
    (username : String) (m : Message) (st : Store)
    → (let fs = (friend_accept username m st).0.contacts.friends in
        (fs ≡ st.contacts.friends)
        ⊎ ((fs
            ≡ change_rows
                (is_pending (requester_of m) username)
                (λ f. record f { is_accepted = true })
                st.contacts.friends)))
unfolding friend_accept accept_friend_request answer_accept
friend_accept-friends username m st = ground arith

friend_reject-friends :
    (username : String) (m : Message) (st : Store)
    → (let fs = (friend_reject username m st).0.contacts.friends in
        (fs ≡ st.contacts.friends)
        ⊎ (fs ≡ keep (λ f. not (is_pending m.sender username f)) st.contacts.friends))
unfolding friend_reject reject_friend_request
friend_reject-friends username m st = ground arith

friend_remove-friends :
    (username : String) (m : Message) (st : Store)
    → (let fs = (friend_remove username m st).0.contacts.friends in
        (fs ≡ st.contacts.friends)
        ⊎ (fs ≡ keep (λ f. not (is_between username m.recipient f)) st.contacts.friends))
unfolding friend_remove remove_friend
friend_remove-friends username m st = ground arith

abbrev friends_of : Store → List Friendship
friends_of st = st.contacts.friends

any_kept :
    (p q : Friendship → Bool) (fs gs : List Friendship)
    → (gs ≡ fs) ⊎ (gs ≡ keep q fs)
    → any p gs ≡ true
    → any p fs ≡ true
any_kept p q fs gs (inl e) h = subst (λ l. any p l ≡ true) e h
any_kept p q fs gs (inr e) h = any-keep p q fs (subst (λ l. any p l ≡ true) e h)

abbrev new_row : String → String → Friendship
new_row from to = record { user_a = from; user_b = to; is_accepted = false }

asked_pending :
    (from to a b : String) (fs gs : List Friendship)
    → (gs ≡ fs) ⊎ (gs ≡ fs ++ new_row from to ∷ [])
    → has_pending a b gs ≡ true
    → (has_pending a b fs || (from == a && to == b)) ≡ true
unfolding is_pending is_pair
asked_pending from to a b fs gs (inl e) h =
    ground (arith, subst (λ l. has_pending a b l ≡ true) e h)
asked_pending from to a b fs gs (inr e) h = ground (
  arith,
  subst (λ l. has_pending a b l ≡ true) e h,
  any-append (is_pending a b) fs (new_row from to),
)

asked_accepted :
    (from to a b : String) (fs gs : List Friendship)
    → (gs ≡ fs) ⊎ (gs ≡ fs ++ new_row from to ∷ [])
    → has_accepted a b gs ≡ true
    → has_accepted a b fs ≡ true
asked_accepted from to a b fs gs (inl e) h = subst (λ l. has_accepted a b l ≡ true) e h
asked_accepted from to a b fs gs (inr e) h = ground (
  arith,
  subst (λ l. has_accepted a b l ≡ true) e h,
  any-append (λ f. f.is_accepted && is_pair a b f) fs (new_row from to),
)

abbrev after_accept : String → String → List Friendship → List Friendship
after_accept from to fs = change_rows (is_pending from to) (λ f. record f { is_accepted = true }) fs

accepted_pending :
    (from to a b : String) (fs gs : List Friendship)
    → (gs ≡ fs) ⊎ (gs ≡ after_accept from to fs)
    → has_pending a b gs ≡ true
    → has_pending a b fs ≡ true
accepted_pending from to a b fs gs (inl e) h = subst (λ l. has_pending a b l ≡ true) e h
accepted_pending from to a b fs gs (inr e) h =
    any-accept_pending from to a b fs (subst (λ l. has_pending a b l ≡ true) e h)

accepted_accepted :
    (from to a b : String) (fs gs : List Friendship)
    → (gs ≡ fs) ⊎ (gs ≡ after_accept from to fs)
    → has_accepted a b gs ≡ true
    → (has_accepted a b fs || (has_pending a b fs && (from == a && to == b))) ≡ true
accepted_accepted from to a b fs gs (inl e) h =
    ground (arith, subst (λ l. has_accepted a b l ≡ true) e h)
accepted_accepted from to a b fs gs (inr e) h =
    any-accept_accepted from to a b fs (subst (λ l. has_accepted a b l ≡ true) e h)

serve-pending :
    (a b : String) (r : Request) (st : Store)
    → has_pending a b (friends_of (serve r st)) ≡ true
    → (has_pending a b (friends_of st) || is_asking a b r) ≡ true
unfolding serve is_asking
serve-pending a b (writes reached username m) st h =
    ground (arith, h, msg-contacts username reached m st)
serve-pending a b (revises username m) st h = ground (arith, h, msg_change-contacts username m st)
serve-pending a b (blocks_user username m) st h = ground (arith, h, block-friends username m st)
serve-pending a b (unblocks_user username m) st h = ground (arith, h, unblock-friends username m st)
serve-pending a b (asks username m) st h =
    asked_pending username m.recipient a b (friends_of st)
      (friends_of (friend_request_message username m st).0)
      (friend_request_message-friends username m st) h
serve-pending a b (accepts username m) st h = ground (
  arith,
  accepted_pending (requester_of m) username a b (friends_of st)
      (friends_of (friend_accept username m st).0) (friend_accept-friends username m st) h,
)
serve-pending a b (rejects username m) st h = ground (
  arith,
  any_kept (is_pending a b) (λ f. not (is_pending m.sender username f)) (friends_of st)
      (friends_of (friend_reject username m st).0) (friend_reject-friends username m st) h,
)
serve-pending a b (removes username m) st h = ground (
  arith,
  any_kept (is_pending a b) (λ f. not (is_between username m.recipient f)) (friends_of st)
      (friends_of (friend_remove username m st).0) (friend_remove-friends username m st) h,
)
serve-pending a b (files username m) st h = ground (arith, h, contact_group_set-kept username m st)

serve-accepted :
    (a b : String) (r : Request) (st : Store)
    → has_accepted a b (friends_of (serve r st)) ≡ true
    → (has_accepted a b (friends_of st) || (has_pending a b (friends_of st) && is_accepting b a r))
      ≡ true
unfolding serve is_accepting
serve-accepted a b (writes reached username m) st h =
    ground (arith, h, msg-contacts username reached m st)
serve-accepted a b (revises username m) st h = ground (arith, h, msg_change-contacts username m st)
serve-accepted a b (blocks_user username m) st h = ground (arith, h, block-friends username m st)
serve-accepted a b (unblocks_user username m) st h =
    ground (arith, h, unblock-friends username m st)
serve-accepted a b (asks username m) st h = ground (
  arith,
  asked_accepted username m.recipient a b (friends_of st)
      (friends_of (friend_request_message username m st).0)
      (friend_request_message-friends username m st) h,
)
serve-accepted a b (accepts username m) st h = ground (
  arith,
  accepted_accepted (requester_of m) username a b (friends_of st)
      (friends_of (friend_accept username m st).0) (friend_accept-friends username m st) h,
)
serve-accepted a b (rejects username m) st h = ground (
  arith,
  any_kept (λ f. f.is_accepted && is_pair a b f) (λ f. not (is_pending m.sender username f))
      (friends_of st) (friends_of (friend_reject username m st).0)
      (friend_reject-friends username m st) h,
)
serve-accepted a b (removes username m) st h = ground (
  arith,
  any_kept (λ f. f.is_accepted && is_pair a b f) (λ f. not (is_between username m.recipient f))
      (friends_of st) (friends_of (friend_remove username m st).0)
      (friend_remove-friends username m st) h,
)
serve-accepted a b (files username m) st h = ground (arith, h, contact_group_set-kept username m st)

serve_all-agreed :
    (a b : String) (rs : List Request) (st : Store)
    → has_accepted a b (friends_of (serve_all rs st)) ≡ true
    → (has_accepted a b (friends_of st)
        || (has_pending a b (friends_of st) && any (is_accepting b a) rs)
        || agreed a b rs)
      ≡ true
unfolding serve_all agreed
serve_all-agreed a b [] st h = ground (arith, h)
serve_all-agreed a b (r ∷ rs) st h =
    ground (
      arith,
      serve_all-agreed a b rs (serve r st) h,
      serve-accepted a b r st,
      serve-pending a b r st,
    )

-- From empty tables, whatever users write, revise, block, unblock, ask, accept, reject, remove and
-- file: two users are friends only where one of them asked the other and the other accepted later.
pub are_friends-serve_all :
    (a b : String) (rs : List Request)
    → are_friends a b (serve_all rs no_contacts).contacts ≡ true
    → (agreed a b rs || agreed b a rs) ≡ true
unfolding are_friends no_contacts
are_friends-serve_all a b rs h = ground (
  arith,
  h,
  are_friends-has_accepted a b (friends_of (serve_all rs no_contacts)),
  serve_all-agreed a b rs no_contacts,
  serve_all-agreed b a rs no_contacts,
)
