-- ===== src/Calls.antt =====
-- nexus_server/ws_handlers.go, the messages of 1:1 calls, with calls.go and callsignal.go. A
-- handler takes the world and gives the world after it and the messages that it sends, in order,
-- each with the connection that it goes to. Times are nanoseconds. The arguments `are_friends`,
-- `rand`, `stored` and `now` are the answers of the friends table, of `randHex`, of the insert
-- into `calls` and of the clock.
pub mod Peers
pub mod Rooms
pub mod Outcomes
use Prim.Native.String.{◌++◌ as append, len}
use phazechat_world.Prelude.{
  ℕ, zero, suc, ◌+◌, ◌-◌, ◌*◌, ◌/◌, ◌%◌, ◌≤◌, ◌<◌, min, max, ◌≡◌, refl, sym, ap, subst, ◌∙◌, ◌≢◌,
  ◌↔◌, ◌⊎◌, inl, inr, Bool, true, false, not, ◌&&◌, ◌||◌, Option, none, some, List, [], ◌∷◌, ◌++◌,
  map, arith, eq_iff, eq_refl, String, Map, lookup, insert, delete, retain, guarded, lookup-insert,
  lookup-delete, lookup-retain, modify, update_all, apply, lookup-modify, lookup-update_all,
  map_laws, length, keep, any, All, length-append, length-keep-le, ltb, leb, eqb, ◌==◌,
  if◌then◌else◌, Bool-cases, Option-cases, trim_space,
}
use phazechat_world.Registry.{
  Conn, Server, clients_of, update_conn, remove_client, any_client_in_call, call_peer,
  pending_caller, first,
}

-- The fields of `NexusMessage` that calls use.
pub record Message : Type 0 where
  pub kind : String
  pub sender : String
  pub recipient : String
  pub body : String
  pub status : String
  pub room_id : String
  pub sdp : String
  pub candidate : String
  pub error : String
  pub ts : ℕ
  pub duration : ℕ

abbrev pub blank : Message
blank = record {
  kind = "";
  sender = "";
  recipient = "";
  body = "";
  status = "";
  room_id = "";
  sdp = "";
  candidate = "";
  error = "";
  ts = 0;
  duration = 0;
}

-- A row of the table `calls`.
pub record CallRow : Type 0 where
  pub id : ℕ
  pub caller : String
  pub callee : String
  pub kind : String
  pub answered : Bool
  pub duration_s : ℕ

pub record World : Type 0 where
  pub server : Server
  pub calls : List CallRow
  pub next_call : ℕ

abbrev pub Sent : Type 0
Sent = List (ℕ × Message)

abbrev pub call_rtc : String
call_rtc = "rtc"

abbrev pub max_call_sdp : ℕ
max_call_sdp = 64 * 1024

abbrev pub max_call_candidate : ℕ
max_call_candidate = 4 * 1024

abbrev pub millisecond : ℕ
millisecond = 1000000

abbrev pub second : ℕ
second = 1000 * millisecond

unfoldable pub valid_call_signal : Message → Bool
valid_call_signal m =
    if ltb max_call_sdp (len m.sdp) || ltb max_call_candidate (len m.candidate)
    then false
    else if m.body == "offer" || m.body == "answer"
    then not (m.sdp == "")
    else if m.body == "ice"
    then not (m.candidate == "")
    else false

unfoldable pub call_outcome : Bool → ℕ → ℕ → Bool × ℕ
call_outcome answered started ended =
    if answered then (true, (ended - started) / second) else (false, 0)

-- The row's id, or 0 where it could not be stored.
unfoldable pub record_call_start : Bool → String → String → String → World → ℕ × World
record_call_start false caller callee kind w = (0, w)
record_call_start true caller callee kind w = (
  w.next_call,
  record w {
    calls =
        record {
          id = w.next_call;
          caller = caller;
          callee = callee;
          kind = kind;
          answered = false;
          duration_s = 0;
        }
        ∷ w.calls;
    next_call = w.next_call + 1;
  },
)

unfoldable pub kind_of : ℕ → List CallRow → String
kind_of id [] = ""
kind_of id (r ∷ rs) = if eqb r.id id then r.kind else kind_of id rs

unfoldable pub update_row : ℕ → Bool → ℕ → List CallRow → List CallRow
update_row id answered duration [] = []
update_row id answered duration (r ∷ rs) =
    (if eqb r.id id then record r { answered = answered; duration_s = duration } else r)
    ∷ update_row id answered duration rs

-- Writes the outcome, and gives the `call_log` message for both parties.
unfoldable pub finalize_call : ℕ → Conn → String → String → World → Message × World
unfolding call_outcome kind_of update_row
finalize_call now p caller callee w =
    let (answered, duration) = call_outcome p.pending_call_answered p.pending_call_started now in
    (
      record blank {
        kind = "call_log";
        sender = caller;
        recipient = callee;
        body = kind_of p.pending_call_id w.calls;
        status = if answered then "answered" else "missed";
        ts = p.pending_call_started / millisecond;
        duration = duration;
      },
      record w { calls = update_row p.pending_call_id answered duration w.calls },
    )

unfoldable pub to_all : Message → List ℕ → Sent
to_all m cs = map (λ c. (c, m)) cs

unfoldable pub write : ℕ → (Conn → Conn) → World → World
unfolding update_conn
write c f w = record w { server = update_conn c f w.server }

unfoldable pub call_kind : String → String
call_kind body = if not (body == "audio") && not (body == "video") then "audio" else body

-- What the dialling connection is told of its pending call.
unfoldable pub dial : String → ℕ → ℕ → Message → Conn → Conn
dial room id now msg c = record c {
  pending_call_room = room;
  pending_call_id = id;
  pending_call_started = now;
  pending_call_rtc = msg.status == call_rtc;
}

-- `call_offer` once the room is drawn: the dialling connection holds the pending call, and every
-- connection of the callee rings.
unfoldable pub place_call : Bool → ℕ → String → String → ℕ → Message → List ℕ → World → World × Sent
unfolding record_call_start write call_kind to_all dial
place_call stored now room me client msg ring w =
    let (id, w') = record_call_start stored me msg.recipient (call_kind msg.body) w in
    (
      write client (dial room id now msg) w',
      to_all (record msg { sender = me; room_id = room }) ring,
    )

unfoldable pub call_error : ℕ → String → World → World × Sent
call_error client text w = (w, (client, record blank { kind = "call_error"; error = text }) ∷ [])

unfoldable pub call_offer :
    (String → String → Bool)
    → Option String
    → Bool
    → ℕ
    → String
    → ℕ
    → Message
    → World
    → World × Sent
unfolding place_call call_error
call_offer are_friends rand stored now me client msg w =
    if me == ""
    then (w, [])
    else if not (are_friends me msg.recipient)
    then call_error client "You can only call friends" w
    else elim (any_client_in_call msg.recipient w.server) [
      | some busy ↦ (w, (client, record blank { kind = "call_busy"; sender = msg.recipient }) ∷ [])
      | none ↦ elim (clients_of msg.recipient w.server) [
        | [] ↦ call_error client (append msg.recipient " is not available") w
        | c ∷ cs ↦ elim rand [
          | none ↦ call_error client "server error" w
          | some room ↦ place_call stored now (append "phaze-" room) me client msg (c ∷ cs) w
        ]
      ]
    ]

-- The answering side of `call_answer`.
unfoldable pub take_call : String → ℕ → Message → World → World
unfolding write
take_call me client msg w =
    write client (λ c. record c { in_call = true; call_partner = msg.recipient }) w

unfoldable pub connect_caller : String → ℕ → World → World
unfolding write
connect_caller me p w =
    write p
      (λ c. record c {
        pending_call_rtc = false;
        pending_call_room = "";
        pending_call_answered = true;
        in_call = true;
        call_partner = me;
      })
      w

-- The user's other connections stop ringing.
unfoldable pub hush : String → ℕ → Message → World → Sent
unfolding to_all
hush me client msg w =
    to_all (record blank { kind = "call_end"; sender = msg.recipient; body = "answered_elsewhere" })
      (keep (λ c. not (eqb c client)) (clients_of me w.server))

unfoldable pub announce_call : String → ℕ → Message → Option (ℕ × Conn) → Sent
announce_call me client msg none =
    (client, record blank { kind = "call_jitsi"; body = msg.body }) ∷ []
announce_call me client msg (some (p, caller)) =
    if caller.pending_call_rtc && msg.status == call_rtc
    then (
      p,
      record blank {
        kind = "call_accepted";
        sender = me;
        room_id = caller.pending_call_room;
        body = msg.body;
        status = "caller";
      },
    )
      ∷ (
        client,
        record blank {
          kind = "call_accepted";
          sender = msg.recipient;
          room_id = caller.pending_call_room;
          body = msg.body;
          status = "callee";
        },
      )
      ∷ []
    else let jitsi = record blank {
      kind = "call_jitsi";
      room_id = caller.pending_call_room;
      body = msg.body;
    } in
      (p, jitsi) ∷ (client, jitsi) ∷ []

unfoldable pub call_answer : String → ℕ → Message → World → World × Sent
unfolding take_call connect_caller hush announce_call
call_answer me client msg w =
    if me == "" then (w, []) else elim (pending_caller msg.recipient w.server) [
      | none ↦ (take_call me client msg w, announce_call me client msg none ++ hush me client msg w)
      | some p ↦ (
        take_call me client msg (connect_caller me p w),
        announce_call me client msg (some (p, w.server.conns p)) ++ hush me client msg w,
      )
    ]

unfoldable pub call_signal : String → ℕ → Message → World → Sent
unfolding valid_call_signal
call_signal me client msg w =
    if me == "" || msg.recipient == "" || not (valid_call_signal msg)
    then []
    else if not
        ((w.server.conns client).in_call && (w.server.conns client).call_partner == msg.recipient)
    then []
    else elim (call_peer msg.recipient me w.server) [
      | none ↦ []
      | some p ↦
          (
            p,
            record blank {
              kind = "call_signal";
              sender = me;
              recipient = msg.recipient;
              body = msg.body;
              sdp = msg.sdp;
              candidate = msg.candidate;
            },
          )
          ∷ []
    ]

-- The connection at the other end: in the call, or still only dialling.
unfoldable pub other_end : String → String → Server → Option ℕ
other_end peer me s = elim (call_peer peer me s) [ some p ↦ some p | none ↦ pending_caller peer s ]

unfoldable pub has_row : Server → ℕ → Bool
has_row s c = not (eqb (s.conns c).pending_call_id 0)

-- The connection that holds the call's row, with the caller and the callee for the log.
unfoldable pub row_holder : String → ℕ → Message → Option ℕ → Server → Option (ℕ × String × String)
unfolding has_row
row_holder me client msg peer s =
    if has_row s client then some (client, me, msg.recipient) else elim peer [
      | none ↦ none
      | some p ↦ if has_row s p then some (p, msg.recipient, me) else none
    ]

unfoldable pub clear_row : ℕ → World → World
unfolding write
clear_row c w = write c (λ p. record p { pending_call_id = 0; pending_call_answered = false }) w

unfoldable pub hang_up : ℕ → World → World
unfolding write
hang_up c w = write c (λ p. record p { in_call = false; call_partner = "" }) w

unfoldable pub hang_up_peer : Option ℕ → World → World
unfolding hang_up
hang_up_peer none w = w
hang_up_peer (some p) w = hang_up p w

unfoldable pub close_row : ℕ → Option (ℕ × String × String) → World → Option Message × World
unfolding finalize_call clear_row
close_row now none w = (none, w)
close_row now (some (p, caller, callee)) w =
    let (log, w') = finalize_call now (w.server.conns p) caller callee w in
    (some log, clear_row p w')

unfoldable pub log_to_both : Option Message → String → String → Server → Sent
unfolding to_all
log_to_both none me peer s = []
log_to_both (some m) me peer s = to_all m (clients_of me s) ++ to_all m (clients_of peer s)

unfoldable pub relay_end : Message → Option ℕ → Sent
relay_end msg none = []
relay_end msg (some p) = (p, msg) ∷ []

-- "call_reject" and "call_end".
unfoldable pub call_end : ℕ → String → ℕ → Message → World → World × Sent
unfolding other_end row_holder close_row hang_up_peer hang_up log_to_both relay_end
call_end now me client msg w =
    if me == ""
    then (w, [])
    else let peer = other_end msg.recipient me w.server in
      let (log, w') = close_row now (row_holder me client msg peer w.server) w in
      (
        hang_up_peer peer (hang_up client w'),
        relay_end msg peer ++ log_to_both log me msg.recipient w.server,
      )
