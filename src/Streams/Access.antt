-- ===== src/Streams/Access.antt =====
-- Who takes part in a live stream over a run of the messages of nexus_server/ws_handlers.go.
use phazechat_world.Prelude.{
  ◌≡◌, refl, ◌⊎◌, inl, inr, Bool, true, false, not, ◌&&◌, ◌||◌, List, [], ◌∷◌, arith, eq_iff,
  String, lookup, delete, lookup-insert, lookup-delete, lookup-modify, lookup-update_all, any, ◌==◌,
  Option-cases, has, without, including, has-without, has-including,
}
use phazechat_world.Streams.{
  Streams, Message, signal, stream_start, stream_stop, stream_add_viewer, stream_remove_viewer,
  views, stream_are_participants, stream_evict_user, title_of, stream_start_message,
  stream_stop_message, stream_join, stream_leave, stream_signal,
}

-- What changes the streams; a user is evicted when the last connection closes.
pub data Request : Type 0 where
  starts : String → Message → Request
  stops : String → Request
  joins : String → Message → Request
  leaves : String → Message → Request
  closes : String → Request

unfoldable pub serve : Request → Streams → Streams
serve (starts u m) s = (stream_start_message u m s).0
serve (stops u) s = (stream_stop_message u s).0
serve (joins u m) s = (stream_join u m s).0
serve (leaves u m) s = (stream_leave u m s).0
serve (closes u) s = (stream_evict_user u s).0

unfoldable pub serve_all : List Request → Streams → Streams
serve_all [] s = s
serve_all (r ∷ rs) s = serve_all rs (serve r s)

-- Whether a request is the user's to view a broadcaster's stream.
abbrev pub is_join : String → String → Request → Bool
is_join host viewer (joins u m) = u == viewer && m.recipient == host
is_join host viewer (starts u m) = false
is_join host viewer (stops u) = false
is_join host viewer (leaves u m) = false
is_join host viewer (closes u) = false

views-stream_evict_user :
    (host viewer username : String) (s : Streams)
    → views host viewer (stream_evict_user username s).0
      ≡ (not (username == host) && not (username == viewer) && views host viewer s)
unfolding views stream_evict_user
views-stream_evict_user host viewer username s = elim (Option-cases (lookup host s)) [
  | inl f ↦ ground (
    arith,
    f,
    lookup-delete username host s,
    lookup-update_all (λ st. record st { viewers = without username st.viewers }) host
        (delete username s),
  )
  | inr (st, f) ↦ ground (
    arith,
    f,
    lookup-delete username host s,
    has-without username viewer st.viewers,
    lookup-update_all (λ t. record t { viewers = without username t.viewers }) host
        (delete username s),
  )
]

views-serve :
    (host viewer : String) (r : Request) (s : Streams)
    → views host viewer (serve r s) ≡ true
    → (is_join host viewer r || views host viewer s) ≡ true
unfolding views serve
views-serve host viewer (starts u m) s e =
    unfold stream_start_message stream_start has in
    ground (
      arith,
      e,
      eq_iff u host,
      lookup-insert u host (record { title = title_of u m.body; viewers = [] }) s,
    )
views-serve host viewer (stops u) s e =
    unfold stream_stop_message stream_stop in ground (arith, e, lookup-delete u host s)
views-serve host viewer (joins u m) s e =
    unfold stream_join stream_add_viewer in
    elim (Option-cases (lookup host s)) [
      | inl f ↦ ground (
        arith,
        e,
        f,
        eq_iff m.recipient host,
        lookup-modify (λ st. record st { viewers = including u st.viewers }) m.recipient host s,
      )
      | inr (st, f) ↦ ground (
        arith,
        e,
        f,
        eq_iff m.recipient host,
        has-including u viewer st.viewers,
        lookup-modify (λ st. record st { viewers = including u st.viewers }) m.recipient host s,
      )
    ]
views-serve host viewer (leaves u m) s e =
    unfold stream_leave stream_remove_viewer in
    elim (Option-cases (lookup host s)) [
      | inl f ↦ ground (
        arith,
        e,
        f,
        eq_iff m.recipient host,
        lookup-modify (λ st. record st { viewers = without u st.viewers }) m.recipient host s,
      )
      | inr (st, f) ↦ ground (
        arith,
        e,
        f,
        eq_iff m.recipient host,
        has-without u viewer st.viewers,
        lookup-modify (λ st. record st { viewers = without u st.viewers }) m.recipient host s,
      )
    ]
views-serve host viewer (closes u) s e = ground (arith, e, views-stream_evict_user host viewer u s)

views-serve_all :
    (host viewer : String) (rs : List Request) (s : Streams)
    → views host viewer (serve_all rs s) ≡ true
    → (any (is_join host viewer) rs || views host viewer s) ≡ true
unfolding serve_all
views-serve_all host viewer [] s e = e
views-serve_all host viewer (r ∷ rs) s e =
    ground (arith, views-serve_all host viewer rs (serve r s) e, views-serve host viewer r s)

no_views : (host viewer : String) → views host viewer [] ≡ false
unfolding views lookup
no_views host viewer = refl

-- Started with no streams and whatever streams are started, joined, left and ended: a signal is
-- dropped, or it goes to the user it names, once, and then the one of the two users asked to view
-- the other's stream before.
pub stream_signal-serve_all :
    (rs : List Request) (username : String) (m : Message)
    → (stream_signal username m (serve_all rs []) ≡ [])
      ⊎ ((stream_signal username m (serve_all rs []) ≡ signal username m ∷ [])
          × ((any (is_join username m.recipient) rs || any (is_join m.recipient username) rs)
              ≡ true))
unfolding stream_signal stream_are_participants
stream_signal-serve_all rs username m = ground (
  arith,
  no_views username m.recipient,
  no_views m.recipient username,
  views-serve_all username m.recipient rs [],
  views-serve_all m.recipient username rs [],
)

-- Once the last connection of a user closes, the user takes part in no stream, as broadcaster or
-- as viewer, with anyone, and which other users take part in a stream with each other stays as it
-- was.
pub stream_are_participants-stream_evict_user :
    (username a b : String) (s : Streams)
    → stream_are_participants a b (stream_evict_user username s).0
      ≡ (not (username == a) && not (username == b) && stream_are_participants a b s)
unfolding stream_are_participants
stream_are_participants-stream_evict_user username a b s =
    ground (arith, views-stream_evict_user a b username s, views-stream_evict_user b a username s)
