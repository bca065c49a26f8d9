-- ===== src/Tests/Calls.antt =====
-- Calls: nexus_server/ws_handlers.go and calls.go.
use phazechat_world.Prelude.{
  ◌≡◌, refl, Bool, true, false, ◌&&◌, some, [], ◌∷◌, arith, String, lookup, any, eqb, ◌==◌,
}
use phazechat_world.Registry.{Conn, clients_of, any_client_in_call, pending_caller}
use phazechat_world.Calls.{
  Message, blank, World, call_offer, call_answer, call_signal, call_end, valid_call_signal,
}
use phazechat_world.Calls.Peers.{CanAnswer, relayed, call_signal-call_answer}
use phazechat_world.Calls.Rooms.{CanOffer, call_answer-call_offer}
use phazechat_world.Calls.Outcomes.{row, call_end-call_offer}

abbrev idle : Conn
idle = record {
  username = "";
  status = "Online";
  in_call = false;
  call_partner = "";
  pending_call_room = "";
  pending_call_id = 0;
  pending_call_started = 0;
  pending_call_rtc = false;
  pending_call_answered = false;
}

-- Alice on connection 1, Bob on 2, Carol on 3.
abbrev three_users : World
three_users = record {
  server = record {
    clients = ("alice", 1 ∷ []) ∷ ("bob", 2 ∷ []) ∷ ("carol", 3 ∷ []) ∷ [];
    conns = λ _. idle;
  };
  calls = [];
  next_call = 1;
}

abbrev friends : String → String → Bool
friends a b = a == "alice" && b == "bob"

abbrev to_bob : Message
to_bob = record blank { recipient = "bob"; body = "video"; status = "rtc" }

abbrev to_alice : Message
to_alice = record blank { recipient = "alice"; status = "rtc" }

abbrev ringing : World
ringing = (call_offer friends (some "r") true 0 "alice" 1 to_bob three_users).0

can_offer : CanOffer friends "alice" 1 to_bob three_users
unfolding any_client_in_call clients_of lookup pending_caller
can_offer = record {
  signed_in = refl;
  friendly = refl;
  idle = refl;
  reachable = refl;
  nothing_pending = refl;
  registered = refl;
}

call_answer-call_offer_example :
    (any (λ e. eqb e.0 3 && e.1.room_id == "phaze-r") (call_answer "carol" 3 to_alice ringing).1
      ≡ true)
    × (((call_answer "carol" 3 to_alice ringing).0.server.conns 1).in_call ≡ true)
    × (((call_answer "carol" 3 to_alice ringing).0.server.conns 1).call_partner ≡ "carol")
call_answer-call_offer_example =
    call_answer-call_offer friends "r" true 0 "alice" "carol" 1 3 to_bob to_alice three_users
      can_offer refl refl refl

can_answer : CanAnswer "bob" 2 1 to_alice ringing
unfolding any_client_in_call clients_of lookup pending_caller call_offer
can_answer = record {
  signed_in = refl;
  named = refl;
  dialled = refl;
  caller_free = refl;
  callee_free = refl;
  not_callers = refl;
  not_callees = refl;
  registered = refl;
}

abbrev candidate_to : String → Message
candidate_to u = record blank { recipient = u; body = "ice"; candidate = "c" }

call_signal-call_answer_example :
    let w = (call_answer "bob" 2 to_alice ringing).0 in
    (call_signal "bob" 2 (candidate_to "alice") w ≡ (1, relayed "bob" (candidate_to "alice")) ∷ [])
    × (call_signal "alice" 1 (candidate_to "bob") w
        ≡ (2, relayed "alice" (candidate_to "bob")) ∷ [])
unfolding valid_call_signal
call_signal-call_answer_example =
    call_signal-call_answer "bob" 2 1 to_alice (candidate_to "alice") (candidate_to "bob") ringing
      can_answer refl refl refl refl

call_end-call_offer_example :
    ((call_end 5000000000 "alice" 1 to_bob ringing).0.calls ≡ row 1 "alice" to_bob false 0 ∷ [])
    × ((call_end 5000000000 "alice" 1 to_bob (call_answer "bob" 2 to_alice ringing).0).0.calls
        ≡ row 1 "alice" to_bob true 5 ∷ [])
call_end-call_offer_example =
    call_end-call_offer friends "r" 0 5000000000 "alice" "bob" 1 2 to_bob to_alice to_bob
      three_users can_offer refl (omega arith) tt refl refl
