-- ===== src/Channels/Authors.antt =====
-- What was posted in a channel stays as it is until its author edits it or one who may deletes it:
-- the channel_ messages of nexus_server/ws_handlers.go.
use phazechat_world.Prelude.{
  ℕ, ◌≡◌, refl, Bool, false, ◌&&◌, Option, some, List, [], ◌∷◌, String, All, ◌==◌,
}
use phazechat_world.Spaces.{Spaces}
use phazechat_world.Channels.{
  Post, Posts, Message, find_post, channel_msg, channel_react, channel_edit, channel_delete,
  channel_pin,
}
use phazechat_world.Channels.Say.{has_say}
use phazechat_world.Channels.Kept.{
  is_id, Reads, channel_msg-Reads, channel_react-Reads, channel_edit-Reads, channel_delete-Reads,
  channel_pin-Reads,
}

-- A message that is handled, with the tables of spaces and the staff as they are then.
pub data Request : Type 0 where
  posts : Spaces → String → Message → Request
  reacts : Spaces → Option ℕ → String → Message → Request
  edits : Spaces → Option ℕ → String → Message → Request
  deletes : Spaces → (String → Bool) → Option ℕ → String → Message → Request
  pins : Spaces → Option ℕ → String → Message → Request

unfoldable pub serve : Request → Posts → Posts
unfolding channel_msg channel_react channel_edit channel_delete channel_pin
serve (posts spaces username m) s = (channel_msg spaces username m s).0
serve (reacts spaces id username m) s = (channel_react spaces id username m s).0
serve (edits spaces id username m) s = (channel_edit spaces id username m s).0
serve (deletes spaces is_staff id username m) s = (channel_delete spaces is_staff id username m s).0
serve (pins spaces id username m) s = (channel_pin spaces id username m s).0

unfoldable pub serve_all : List Request → Posts → Posts
unfolding serve
serve_all [] s = s
serve_all (r ∷ rs) s = serve_all rs (serve r s)

-- Whether a request is the author's edit of a post, or its deletion by the author, by an owner or
-- admin of the post's space or by the staff.
unfoldable pub touches : ℕ → Post → Request → Bool
touches id p (edits spaces j username m) = is_id id j && p.sender == username
touches id p (deletes spaces is_staff j username m) =
    is_id id j && has_say spaces is_staff username p
touches id p (posts spaces username m) = false
touches id p (reacts spaces j username m) = false
touches id p (pins spaces j username m) = false

serve-Reads :
    (id : ℕ) (p : Post) (r : Request) (s : Posts)
    → touches id p r ≡ false
    → Reads id p s.rows
    → Reads id p (serve r s).rows
unfolding serve touches
serve-Reads id p (posts spaces username m) s n k = channel_msg-Reads id p spaces username m s k
serve-Reads id p (reacts spaces j username m) s n k =
    channel_react-Reads id p spaces j username m s k
serve-Reads id p (edits spaces j username m) s n k =
    channel_edit-Reads id p spaces j username m s n k
serve-Reads id p (deletes spaces is_staff j username m) s n k =
    channel_delete-Reads id p spaces is_staff j username m s n k
serve-Reads id p (pins spaces j username m) s n k = channel_pin-Reads id p spaces j username m s k

serve_all-run :
    (id : ℕ) (p : Post) (rs : List Request) (s : Posts)
    → All (λ r. touches id p r ≡ false) rs
    → Reads id p s.rows
    → Reads id p (serve_all rs s).rows
unfolding serve_all
serve_all-run id p [] s n k = k
serve_all-run id p (r ∷ rs) s (n, ns) k =
    serve_all-run id p rs (serve r s) ns (serve-Reads id p r s n k)

-- However the spaces and the staff change meanwhile: a post is still there, in its channel, by its
-- author and with its text, deleted or not as it was, after any posts, reactions, edits, deletions
-- and pins among which is no edit of it by its author and no deletion of it by the author, by a
-- member whose role in the space of its channel is then owner or admin, or by the staff of then.
pub serve_all-Reads :
    (id : ℕ) (p : Post) (rs : List Request) (s : Posts)
    → find_post id s.rows ≡ some p
    → All (λ r. touches id p r ≡ false) rs
    → Reads id p (serve_all rs s).rows
serve_all-Reads id p rs s e ns = serve_all-run id p rs s ns (p, e, (refl, refl, refl, refl))
