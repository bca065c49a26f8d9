-- ===== src/Contacts/Blocking.antt =====
-- A block lasts until the blocker lifts it: the messages about contacts of
-- nexus_server/ws_handlers.go.
use phazechat_world.Prelude.{
  ◌≡◌, sym, ap, subst, ◌≢◌, Bool, true, false, not, ◌&&◌, ◌||◌, List, [], ◌∷◌, arith, eq_iff,
  eq_refl, String, keep, any, All, ◌==◌,
}
use phazechat_world.Contacts.{
  Contacts, Block, is_block, is_blocked, block_user, unblock_user, send_friend_request,
}
use phazechat_world.Contacts.Messages.{
  Message, Store, told, msg_status, friend_request_sent, msg, msg_change, block, unblock,
  friend_request_message, friend_accept, friend_reject, friend_remove, contact_group_set,
  answer_request, is_cut,
}
use phazechat_world.Contacts.Kept.{
  msg-contacts, msg_change-contacts, contact_group_set-kept, friend_request_message-blocks,
  friend_accept-blocks, friend_reject-blocks, friend_remove-blocks,
}
use phazechat_world.Contacts.Runs.{
  Request, writes, revises, blocks_user, unblocks_user, asks, accepts, rejects, removes, files,
  serve, serve_all,
}

-- Whether a request lifts the block of one user by another.
unfoldable pub lifts : String → String → Request → Bool
lifts a b (unblocks_user username m) = username == a && m.recipient == b
lifts a b (writes reached username m) = false
lifts a b (revises username m) = false
lifts a b (blocks_user username m) = false
lifts a b (asks username m) = false
lifts a b (accepts username m) = false
lifts a b (rejects username m) = false
lifts a b (removes username m) = false
lifts a b (files username m) = false

is_block-same :
    (a b u v : String) (x : Block)
    → is_block a b x ≡ true
    → is_block u v x ≡ true
    → (u == a && v == b) ≡ true
unfolding is_block
is_block-same a b u v x h k =
    let p : x.blocker ≡ u = (eq_iff x.blocker u).0 (ground (arith, k)) in
    let q : x.blocked ≡ v = (eq_iff x.blocked v).0 (ground (arith, k)) in
    subst (λ s. (s == a && v == b) ≡ true) p (subst (λ t. (x.blocker == a && t == b) ≡ true) q h)

any-unblock :
    (a b u v : String) (bs : List Block)
    → u == a && v == b ≡ false
    → any (is_block a b) bs ≡ true
    → any (is_block a b) (keep (λ x. not (is_block u v x)) bs) ≡ true
any-unblock a b u v [] d h = h
any-unblock a b u v (x ∷ bs) d h =
    ground (arith, h, d, is_block-same a b u v x, any-unblock a b u v bs d)

unblock-is_blocked :
    (a b username : String) (m : Message) (st : Store)
    → username == a && m.recipient == b ≡ false
    → is_blocked a b st.contacts ≡ true
    → is_blocked a b (unblock username m st).0.contacts ≡ true
unfolding unblock unblock_user is_blocked
unblock-is_blocked a b username m st d h =
    ground (arith, h, any-unblock a b username m.recipient st.contacts.blocks d)

block-is_blocked :
    (a b username : String) (m : Message) (st : Store)
    → is_blocked a b st.contacts ≡ true
    → is_blocked a b (block username m st).0.contacts ≡ true
unfolding block block_user is_blocked
block-is_blocked a b username m st h = ground (arith, h)

kept_blocked :
    (a b : String) (c d : Contacts)
    → d.blocks ≡ c.blocks
    → is_blocked a b c ≡ true
    → is_blocked a b d ≡ true
unfolding is_blocked
kept_blocked a b c d e h = subst (λ bs. any (is_block a b) bs ≡ true) (sym e) h

serve-is_blocked :
    (a b : String) (r : Request) (st : Store)
    → lifts a b r ≡ false
    → is_blocked a b st.contacts ≡ true
    → is_blocked a b (serve r st).contacts ≡ true
unfolding serve lifts
serve-is_blocked a b (writes reached username m) st d h =
    kept_blocked a b st.contacts (msg username reached m st).0.contacts
      (ap (λ c. c.blocks) (msg-contacts username reached m st)) h
serve-is_blocked a b (revises username m) st d h =
    kept_blocked a b st.contacts (msg_change username m st).0.contacts
      (ap (λ c. c.blocks) (msg_change-contacts username m st)) h
serve-is_blocked a b (blocks_user username m) st d h = block-is_blocked a b username m st h
serve-is_blocked a b (unblocks_user username m) st d h = unblock-is_blocked a b username m st d h
serve-is_blocked a b (asks username m) st d h =
    kept_blocked a b st.contacts (friend_request_message username m st).0.contacts
      (friend_request_message-blocks username m st) h
serve-is_blocked a b (accepts username m) st d h =
    kept_blocked a b st.contacts (friend_accept username m st).0.contacts
      (friend_accept-blocks username m st) h
serve-is_blocked a b (rejects username m) st d h =
    kept_blocked a b st.contacts (friend_reject username m st).0.contacts
      (friend_reject-blocks username m st) h
serve-is_blocked a b (removes username m) st d h =
    kept_blocked a b st.contacts (friend_remove username m st).0.contacts
      (friend_remove-blocks username m st) h
serve-is_blocked a b (files username m) st d h =
    kept_blocked a b st.contacts (contact_group_set username m st).0.contacts
      (contact_group_set-kept username m st).1 h

serve_all-is_blocked :
    (a b : String) (rs : List Request) (st : Store)
    → All (λ r. lifts a b r ≡ false) rs
    → is_blocked a b st.contacts ≡ true
    → is_blocked a b (serve_all rs st).contacts ≡ true
unfolding serve_all
serve_all-is_blocked a b [] st d h = h
serve_all-is_blocked a b (r ∷ rs) st (d, ds) h =
    serve_all-is_blocked a b rs (serve r st) ds (serve-is_blocked a b r st d h)

abbrev pub to : String → Message → Message
to recipient m = record m { recipient = recipient }

-- What one user sends another comes to nothing: a message, a change of one, a friend request.
abbrev pub IsSilenced : String → String → Bool → Message → Store → Type 0
IsSilenced s r reached m st =
    (msg s reached (to r m) st ≡ (st, told (msg_status "delivered_offline" r "") ∷ []))
    × (msg_change s (to r m) st ≡ (st, []))
    × (friend_request_message s (to r m) st ≡ (st, told (friend_request_sent r) ∷ []))

cut-IsSilenced :
    (s r : String) (reached : Bool) (m : Message) (st : Store)
    → s ≢ ""
    → r ≢ "PhazeBot"
    → is_blocked r s st.contacts || is_blocked s r st.contacts ≡ true
    → IsSilenced s r reached m st
unfolding msg msg_change friend_request_message send_friend_request answer_request is_cut
cut-IsSilenced s r reached m st n p h = (
  ground (arith, n, p, h, eq_iff s "", eq_iff r "PhazeBot"),
  ground (arith, n, h, eq_iff s ""),
  ground (arith, n, h, eq_iff s ""),
)

block_done :
    (a b : String) (m : Message) (st : Store)
    → a ≢ ""
    → b ≢ ""
    → a ≢ b
    → is_blocked a b (block a (to b m) st).0.contacts ≡ true
unfolding block block_user is_blocked is_block
block_done a b m st n p d =
    ground (arith, n, p, d, eq_iff a "", eq_iff b "", eq_iff a b, eq_refl a, eq_refl b)

-- Once a user has blocked another, and until the same user lifts this block, whatever anyone does:
-- what either sends the other, a message, a change or a deletion of one, a reaction or a friend
-- request, changes no table and reaches no one, and the sender of a message or a request is told
-- what a user who is away or takes the request would lead to. Neither user is the bot.
pub block-serve_all :
    (a b : String) (m n : Message) (rs : List Request) (reached : Bool) (st : Store)
    → a ≢ ""
    → b ≢ ""
    → a ≢ b
    → a ≢ "PhazeBot"
    → b ≢ "PhazeBot"
    → All (λ r. lifts a b r ≡ false) rs
    → (let st' = serve_all rs (block a (to b n) st).0 in
        IsSilenced b a reached m st' × IsSilenced a b reached m st')
block-serve_all a b m n rs reached st na nb d pa pb ds =
    let st' = serve_all rs (block a (to b n) st).0 in
    let h = serve_all-is_blocked a b rs (block a (to b n) st).0 ds (block_done a b n st na nb d) in
    (
      cut-IsSilenced b a reached m st' nb pa (ground (arith, h)),
      cut-IsSilenced a b reached m st' na pb (ground (arith, h)),
    )
