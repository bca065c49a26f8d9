-- ===== src/Contacts.antt =====
-- Friends, blocks and groups of contacts: the tables of nexus_server/main.go and the functions on
-- them. The rows of `blocks` stand with the newest first.
pub mod Messages
pub mod Kept
pub mod Runs
pub mod Consent
pub mod Blocking
use phazechat_world.Prelude.{
  ℕ, zero, suc, ◌+◌, ◌-◌, ◌*◌, ◌/◌, ◌%◌, ◌≤◌, ◌<◌, min, max, ◌≡◌, refl, sym, ap, subst, ◌∙◌, ◌≢◌,
  ◌↔◌, ◌⊎◌, inl, inr, Bool, true, false, not, ◌&&◌, ◌||◌, Option, none, some, List, [], ◌∷◌, ◌++◌,
  map, arith, eq_iff, eq_refl, String, Map, lookup, insert, delete, retain, guarded, lookup-insert,
  lookup-delete, lookup-retain, modify, update_all, apply, lookup-modify, lookup-update_all,
  map_laws, length, keep, any, All, length-append, length-keep-le, get_elem?, All-keep, keep-All,
  All-get, get_elem?-total, keep-append, keep-none, ltb, leb, eqb, ◌==◌, if◌then◌else◌, Bool-cases,
  Option-cases, trim_space, has, without, including, has-without, has-including, has-All, first_row,
  change_first, change_rows, keep-change_first, keep-change_first_same, Ascends, Ascends-append,
  Ascends-change_first, change_rows-first, is_empty, starts_with, after_first, before_first,
  ends_with, split_at,
}

-- A row of `friends`; its status is pending or accepted.
pub record Friendship : Type 0 where
  pub user_a : String
  pub user_b : String
  pub is_accepted : Bool

pub record Block : Type 0 where
  pub blocker : String
  pub blocked : String

-- A row of `contact_groups`.
pub record Filing : Type 0 where
  pub owner : String
  pub contact : String
  pub group_name : String

pub record Contacts : Type 0 where
  pub friends : List Friendship
  pub blocks : List Block
  pub groups : List Filing

pub data FriendError : Type 0 where
  is_blocked_error duplicate no_pending : FriendError

unfoldable pub is_block : String → String → Block → Bool
is_block blocker blocked b = b.blocker == blocker && b.blocked == blocked

unfoldable pub is_blocked : String → String → Contacts → Bool
unfolding is_block
is_blocked blocker blocked c = any (is_block blocker blocked) c.blocks

-- Whether it is refused, and the tables after it; the insert ignores a row that is there.
unfoldable pub block_user : String → String → Contacts → Bool × Contacts
unfolding is_blocked
block_user blocker blocked c =
    if blocker == "" || blocked == "" || blocker == blocked
    then (true, c)
    else if is_blocked blocker blocked c
    then (false, c)
    else (false, record c { blocks = record { blocker = blocker; blocked = blocked } ∷ c.blocks })

unfoldable pub unblock_user : String → String → Contacts → Contacts
unfolding is_block
unblock_user blocker blocked c = record c {
  blocks = keep (λ b. not (is_block blocker blocked b)) c.blocks;
}

unfoldable pub list_blocks : String → Contacts → List String
list_blocks blocker c = map (λ b. b.blocked) (keep (λ b. b.blocker == blocker) c.blocks)

unfoldable pub is_pair : String → String → Friendship → Bool
is_pair a b f = f.user_a == a && f.user_b == b

-- A row of two users, whoever asked.
unfoldable pub is_between : String → String → Friendship → Bool
unfolding is_pair
is_between a b f = is_pair a b f || is_pair b a f

unfoldable pub is_pending : String → String → Friendship → Bool
unfolding is_pair
is_pending from to f = is_pair from to f && not f.is_accepted

unfoldable pub other_of : String → Friendship → String
other_of username f = if f.user_a == username then f.user_b else f.user_a

unfoldable pub get_friends : String → Contacts → List String
unfolding other_of
get_friends username c =
    map (other_of username)
      (keep (λ f. (f.user_a == username || f.user_b == username) && f.is_accepted) c.friends)

unfoldable pub get_pending_requests : String → Contacts → List String
get_pending_requests username c =
    map (λ f. f.user_a) (keep (λ f. f.user_b == username && not f.is_accepted) c.friends)

unfoldable pub are_friends : String → String → Contacts → Bool
unfolding is_between
are_friends a b c = any (λ f. f.is_accepted && is_between a b f) c.friends

unfoldable pub send_friend_request : String → String → Contacts → Option FriendError × Contacts
unfolding is_blocked is_between
send_friend_request from to c =
    if is_blocked to from c || is_blocked from to c
    then (some is_blocked_error, c)
    else if any (is_between from to) c.friends
    then (some duplicate, c)
    else (
      none,
      record c {
        friends = c.friends ++ record { user_a = from; user_b = to; is_accepted = false } ∷ [];
      },
    )

unfoldable pub accept_friend_request : String → String → Contacts → Option FriendError × Contacts
unfolding is_pending
accept_friend_request from to c =
    if any (is_pending from to) c.friends
    then (
      none,
      record c {
        friends = change_rows (is_pending from to) (λ f. record f { is_accepted = true }) c.friends;
      },
    )
    else (some no_pending, c)

unfoldable pub reject_friend_request : String → String → Contacts → Contacts
unfolding is_pending
reject_friend_request from to c = record c {
  friends = keep (λ f. not (is_pending from to f)) c.friends;
}

unfoldable pub remove_friend : String → String → Contacts → Contacts
unfolding is_between
remove_friend a b c = record c { friends = keep (λ f. not (is_between a b f)) c.friends }

unfoldable pub get_contact_groups : String → Contacts → List (String × String)
get_contact_groups owner c =
    map (λ g. (g.contact, g.group_name)) (keep (λ g. g.owner == owner) c.groups)

unfoldable pub is_filing : String → String → Filing → Bool
is_filing owner contact g = g.owner == owner && g.contact == contact

unfoldable pub set_contact_group : String → String → String → Contacts → Contacts
unfolding is_filing
set_contact_group owner contact group_name c =
    if group_name == ""
    then record c { groups = keep (λ g. not (is_filing owner contact g)) c.groups }
    else if any (is_filing owner contact) c.groups
    then record c {
      groups =
          change_rows (is_filing owner contact) (λ g. record g { group_name = group_name })
            c.groups;
    }
    else record c {
      groups =
          c.groups ++ record { owner = owner; contact = contact; group_name = group_name } ∷ [];
    }
