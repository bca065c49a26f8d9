-- ===== src/Calls/Outcomes.antt =====
-- nexus_server/calls.go and ws_handlers.go: what the call log says.
use phazechat_world.Prelude.{
  ℕ, ◌-◌, ◌/◌, ◌<◌, ◌≡◌, refl, ◌∙◌, Bool, true, false, Option, none, some, List, [], ◌∷◌, arith,
  String, eqb, ◌==◌,
}
use phazechat_world.Registry.{Server, pending_caller}
use phazechat_world.Calls.{
  Message, CallRow, World, second, call_outcome, update_row, call_kind, place_call, call_offer,
  call_answer, other_end, has_row, row_holder, hang_up, hang_up_peer, close_row, call_end,
}
use phazechat_world.Calls.Peers.{call_answer_heap}
use phazechat_world.Calls.Rooms.{CanOffer, offer_places, call_offer-HoldsRoom}

hang_up_both_calls :
    (o : Option ℕ) (client : ℕ) (w : World) → (hang_up_peer o (hang_up client w)).calls ≡ w.calls
unfolding hang_up_peer
hang_up_both_calls none client w = refl
hang_up_both_calls (some p) client w = refl

row_holder_own :
    (me : String) (client : ℕ) (msg : Message) (peer : Option ℕ) (s : Server)
    → has_row s client ≡ true
    → row_holder me client msg peer s ≡ some (client, me, msg.recipient)
unfolding row_holder
row_holder_own me client msg peer s r = rw r

call_end_lem :
    (now : ℕ) (me : String) (client : ℕ) (msg : Message) (w : World)
    → (me == "") ≡ false
    → (call_end now me client msg w).0
      ≡ hang_up_peer (other_end msg.recipient me w.server) (
          hang_up client
            (close_row now
              (row_holder me client msg (other_end msg.recipient me w.server) w.server)
              w).1)
unfolding call_end
call_end_lem now me client msg w h = rw h

close_row_calls :
    (now p : ℕ) (caller callee : String) (w : World)
    → (close_row now (some (p, caller, callee)) w).1.calls
      ≡ update_row
          (w.server.conns p).pending_call_id
          (call_outcome
            (w.server.conns p).pending_call_answered
            (w.server.conns p).pending_call_started
            now).0
          (call_outcome
            (w.server.conns p).pending_call_answered
            (w.server.conns p).pending_call_started
            now).1
          w.calls
unfolding close_row
close_row_calls now p caller callee w = refl

-- The connection that holds the row ends the call.
call_end_calls :
    (now : ℕ) (me : String) (client : ℕ) (msg : Message) (w : World)
    → (me == "") ≡ false
    → has_row w.server client ≡ true
    → (call_end now me client msg w).0.calls
      ≡ update_row
          (w.server.conns client).pending_call_id
          (call_outcome
            (w.server.conns client).pending_call_answered
            (w.server.conns client).pending_call_started
            now).0
          (call_outcome
            (w.server.conns client).pending_call_answered
            (w.server.conns client).pending_call_started
            now).1
          w.calls
call_end_calls now me client msg w h r =
    let peer = other_end msg.recipient me w.server in
    rw (call_end_lem now me client msg w h) (
      hang_up_both_calls peer client (close_row now (row_holder me client msg peer w.server) w).1
      ∙ rw (row_holder_own me client msg peer w.server r)
          (close_row_calls now client me msg.recipient w))

-- No row has the id that the table gives out next.
abbrev pub AreOld : ℕ → List CallRow → Type 0
AreOld id [] = Unit {0}
AreOld id (r ∷ rs) = (eqb r.id id ≡ false) × AreOld id rs

update_row_old :
    (id : ℕ) (answered : Bool) (d : ℕ) (rs : List CallRow)
    → AreOld id rs
    → update_row id answered d rs ≡ rs
unfolding update_row
update_row_old id answered d [] o = refl
update_row_old id answered d (r ∷ rs) o = ground (arith, update_row_old id answered d rs o.1)

-- A row as `call_offer` stores it, with its outcome.
abbrev pub row : ℕ → String → Message → Bool → ℕ → CallRow
row id me msg answered d = record {
  id = id;
  caller = me;
  callee = msg.recipient;
  kind = call_kind msg.body;
  answered = answered;
  duration_s = d;
}

-- A world in which a connection of `me` has dialled, with its row.
record Dialled (me : String) (a id start : ℕ) (answered : Bool) (msg : Message)
    (rows : List CallRow) (w : World) : Type 0 where
  row_kept : w.calls ≡ row id me msg false 0 ∷ rows
  id_kept : (w.server.conns a).pending_call_id ≡ id
  start_kept : (w.server.conns a).pending_call_started ≡ start
  answer_kept : (w.server.conns a).pending_call_answered ≡ answered

call_offer-Dialled :
    (are_friends : String → String → Bool) (room : String) (start : ℕ) (me : String) (a : ℕ)
    (msg : Message) (answered : Bool) (w : World)
    → CanOffer are_friends me a msg w
    → (w.server.conns a).pending_call_answered ≡ answered
    → Dialled me a w.next_call start answered msg w.calls
        (call_offer are_friends (some room) true start me a msg w).0
unfolding place_call
call_offer-Dialled are_friends room start me a msg answered w o f =
    rw (offer_places are_friends room true start me a msg w o) (record {
      row_kept = refl;
      id_kept = ground arith;
      start_kept = ground arith;
      answer_kept = ground arith;
    })

call_end-Dialled :
    (now : ℕ) (me : String) (a id start : ℕ) (answered : Bool) (msg bye : Message)
    (rows : List CallRow) (w : World)
    → (me == "") ≡ false
    → 0 < id
    → AreOld id rows
    → Dialled me a id start answered msg rows w
    → (call_end now me a bye w).0.calls
      ≡ row id me msg (call_outcome answered start now).0 (call_outcome answered start now).1 ∷ rows
unfolding has_row update_row
call_end-Dialled now me a id start answered msg bye rows w h pos old d =
    call_end_calls now me a bye w h (ground arith)
    ∙ rw (d.id_kept, d.start_kept, d.answer_kept, d.row_kept)
        (ground (
          arith,
          update_row_old id (call_outcome answered start now).0 (call_outcome answered start now).1
              rows old,
        ))

call_answer-Dialled :
    (me other : String) (a c id start : ℕ) (answered : Bool) (msg reply : Message)
    (rows : List CallRow) (w : World)
    → (other == "") ≡ false
    → pending_caller reply.recipient w.server ≡ some a
    → Dialled me a id start answered msg rows w
    → Dialled me a id start true msg rows (call_answer other c reply w).0
call_answer-Dialled me other a c id start answered msg reply rows w h e d =
    rw (call_answer_heap other c a reply w h e) (record {
      row_kept = d.row_kept;
      id_kept = ground arith;
      start_kept = ground arith;
      answer_kept = ground arith;
    })

-- A call that rings, with its row stored under a new number and no answer left over from an
-- earlier call on the caller's connection, and that the caller then ends: unanswered, its row
-- reads "not answered, 0 seconds" however long it rang; answered in between, its row reads
-- "answered" with the whole seconds since it was placed. All other rows stay as they were.
pub call_end-call_offer :
    (are_friends : String → String → Bool) (room : String) (start now : ℕ) (me other : String)
    (a c : ℕ) (msg reply bye : Message) (w : World)
    → CanOffer are_friends me a msg w
    → (w.server.conns a).pending_call_answered ≡ false
    → 0 < w.next_call
    → AreOld w.next_call w.calls
    → (other == "") ≡ false
    → reply.recipient ≡ me
    → let w' = (call_offer are_friends (some room) true start me a msg w).0 in
      ((call_end now me a bye w').0.calls ≡ row w.next_call me msg false 0 ∷ w.calls)
      × ((call_end now me a bye (call_answer other c reply w').0).0.calls
          ≡ row w.next_call me msg true ((now - start) / second) ∷ w.calls)
unfolding call_outcome
call_end-call_offer are_friends room start now me other a c msg reply bye w o f pos old h e =
    let w' = (call_offer are_friends (some room) true start me a msg w).0 in
    let d = call_offer-Dialled are_friends room start me a msg false w o f in
    let held = call_offer-HoldsRoom are_friends room true start me a msg w o in
    (
      call_end-Dialled now me a w.next_call start false msg bye w.calls w' o.signed_in pos old d,
      call_end-Dialled now me a w.next_call start true msg bye w.calls
          (call_answer other c reply w').0 o.signed_in pos old
          (call_answer-Dialled me other a c w.next_call start false msg reply w.calls w' h
            (rw e held.found) d),
    )
