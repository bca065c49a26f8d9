-- ===== src/Streams.antt =====
-- nexus_server/main.go and ws_handlers.go: live streams. A stream is kept by its broadcaster's name
-- with its title and the set of its viewers; a handler gives the streams after it and what it sends.
pub mod Access
use phazechat_world.Prelude.{
  ℕ, zero, suc, ◌+◌, ◌-◌, ◌*◌, ◌/◌, ◌%◌, ◌≤◌, ◌<◌, min, max, ◌≡◌, refl, sym, ap, subst, ◌∙◌, ◌≢◌,
  ◌↔◌, ◌⊎◌, inl, inr, Bool, true, false, not, ◌&&◌, ◌||◌, Option, none, some, List, [], ◌∷◌, ◌++◌,
  map, arith, eq_iff, eq_refl, String, Map, lookup, insert, delete, retain, guarded, lookup-insert,
  lookup-delete, lookup-retain, modify, update_all, apply, lookup-modify, lookup-update_all,
  map_laws, length, keep, any, All, length-append, length-keep-le, ltb, leb, eqb, ◌==◌,
  if◌then◌else◌, Bool-cases, Option-cases, trim_space, has, without, including, has-without,
  has-including, is_empty, starts_with,
}
use Prim.Native.String.{◌++◌ as append}

pub record LiveStream : Type 0 where
  pub title : String
  pub viewers : List String

-- `NexusServer.Streams`
abbrev pub Streams : Type 0
Streams = Map LiveStream

-- The fields of `NexusMessage` that streams read.
pub record Message : Type 0 where
  pub recipient : String
  pub body : String
  pub sdp : String
  pub candidate : String

-- What is sent: to a user, to the connection that asked, or to everyone.
pub data Event : Type 0 where
  stream_ended : String → String → Event
  viewer_join : String → String → Event
  viewer_leave : String → String → Event
  join_result : String → String → Event
  signal : String → Message → Event
  list_result : List String → Event
  list_broadcast : List String → Event

unfoldable pub stream_start : String → String → Streams → Streams
stream_start host title s = insert host (record { title = title; viewers = [] }) s

-- The viewers that are told, and the streams without it.
unfoldable pub stream_stop : String → Streams → Streams × List Event
stream_stop host s = (
  delete host s,
  elim (lookup host s) [ none ↦ [] | some st ↦ map (λ v. stream_ended v host) st.viewers ],
)

unfoldable pub stream_has : String → Streams → Bool
stream_has host s = elim (lookup host s) [ none ↦ false | some st ↦ true ]

unfoldable pub stream_add_viewer : String → String → Streams → Streams
unfolding including
stream_add_viewer host viewer s =
    modify (λ st. record st { viewers = including viewer st.viewers }) host s

unfoldable pub stream_remove_viewer : String → String → Streams → Streams
unfolding without
stream_remove_viewer host viewer s =
    modify (λ st. record st { viewers = without viewer st.viewers }) host s

unfoldable pub stream_list : Streams → List String
stream_list [] = []
stream_list ((host, st) ∷ s) = host ∷ st.title ∷ stream_list s

unfoldable pub views : String → String → Streams → Bool
views host viewer s = elim (lookup host s) [ none ↦ false | some st ↦ has viewer st.viewers ]

unfoldable pub stream_are_participants : String → String → Streams → Bool
unfolding views
stream_are_participants a b s = views a b s || views b a s

-- The broadcasters whose stream a user views.
unfoldable pub viewed_hosts : String → Streams → List String
viewed_hosts username [] = []
viewed_hosts username ((host, st) ∷ s) =
    let rest = viewed_hosts username s in if has username st.viewers then host ∷ rest else rest

unfoldable pub stream_evict_user : String → Streams → Streams × List Event
unfolding viewed_hosts stream_list without
stream_evict_user username s =
    let others = delete username s in
    let s' = update_all (λ st. record st { viewers = without username st.viewers }) others in
    (
      s',
      map (λ h. viewer_leave h username) (viewed_hosts username others)
          ++ (if stream_has username s then list_broadcast (stream_list s') ∷ [] else []),
    )

unfoldable pub title_of : String → String → String
title_of username body =
    if trim_space body == "" then append username "'s stream" else trim_space body

unfoldable pub stream_start_message : String → Message → Streams → Streams × List Event
unfolding stream_start title_of stream_list
stream_start_message username m s =
    if username == ""
    then (s, [])
    else (let s' = stream_start username (title_of username m.body) s in
        (s', list_broadcast (stream_list s') ∷ []))

unfoldable pub stream_stop_message : String → Streams → Streams × List Event
unfolding stream_stop stream_list
stream_stop_message username s =
    if username == ""
    then (s, [])
    else (let (s', told) = stream_stop username s in
        (s', told ++ list_broadcast (stream_list s') ∷ []))

unfoldable pub stream_join : String → Message → Streams → Streams × List Event
unfolding stream_has stream_add_viewer
stream_join username m s =
    if username == "" || m.recipient == ""
    then (s, [])
    else if not (stream_has m.recipient s)
    then (s, join_result "" "not live" ∷ [])
    else (
      stream_add_viewer m.recipient username s,
      viewer_join m.recipient username ∷ join_result m.recipient "" ∷ [],
    )

unfoldable pub stream_leave : String → Message → Streams → Streams × List Event
unfolding stream_remove_viewer
stream_leave username m s =
    if username == "" || m.recipient == ""
    then (s, [])
    else (stream_remove_viewer m.recipient username s, viewer_leave m.recipient username ∷ [])

unfoldable pub stream_signal : String → Message → Streams → List Event
unfolding stream_are_participants
stream_signal username m s =
    if username == "" || m.recipient == ""
    then []
    else if not (stream_are_participants username m.recipient s)
    then []
    else signal username m ∷ []
