-- ===== src/Calls/Peers.antt =====
-- nexus_server/ws_handlers.go: who is connected to whom once a call is answered, and where its
-- signals go.
use phazechat_world.Prelude.{
  ℕ, ◌≡◌, refl, sym, ◌∙◌, Bool, true, false, not, ◌&&◌, ◌||◌, none, some, List, [], ◌∷◌, arith,
  eq_refl, String, any, eqb, ◌==◌, if◌then◌else◌,
}
use phazechat_world.Registry.{
  Conn, clients_of, any_client_in_call, call_peer, pending_caller, first,
}
use phazechat_world.Calls.{Message, blank, World, valid_call_signal, call_answer, call_signal}

abbrev Heap : Type 0
Heap = ℕ → Conn

-- The heap after the two writes of an answered call.
abbrev answered_heap : String → String → ℕ → ℕ → Heap → Heap
answered_heap me peer client p h = λ j.
    let k =
      if eqb j p
      then record (h j) {
        pending_call_rtc = false;
        pending_call_room = "";
        pending_call_answered = true;
        in_call = true;
        call_partner = me;
      }
      else h j in
    if eqb j client then record k { in_call = true; call_partner = peer } else k

pub call_answer_heap :
    (me : String) (client p : ℕ) (msg : Message) (w : World)
    → (me == "") ≡ false
    → pending_caller msg.recipient w.server ≡ some p
    → (call_answer me client msg w).0 ≡ record w {
      server = record w.server { conns = answered_heap me msg.recipient client p w.server.conns };
    }
unfolding call_answer
call_answer_heap me client p msg w h e = rw (h, e, call_answer) refl

-- The first connection that has placed a call is the only one in a call with `me` afterwards, if
-- none was in a call before.
first_peer :
    (me peer : String) (client p : ℕ) (h : Heap) (cs : List ℕ)
    → first (λ c. not ((h c).pending_call_room == "") || not (eqb (h c).pending_call_id 0)) cs
      ≡ some p
    → first (λ c. (h c).in_call) cs ≡ none
    → any (λ c. eqb c client) cs ≡ false
    → first
        (λ c.
          (answered_heap me peer client p h c).in_call
          && (answered_heap me peer client p h c).call_partner == me)
        cs
      ≡ some p
unfolding first
first_peer me peer client p h [] e n a = cc
first_peer me peer client p h (c ∷ cs) e n a =
    ground (arith, eq_refl me, first_peer me peer client p h cs)

first_self :
    (me peer : String) (client p : ℕ) (h : Heap) (cs : List ℕ)
    → any (λ c. eqb c client) cs ≡ true
    → first (λ c. (h c).in_call) cs ≡ none
    → any (λ c. eqb c p) cs ≡ false
    → first
        (λ c.
          (answered_heap me peer client p h c).in_call
          && (answered_heap me peer client p h c).call_partner == peer)
        cs
      ≡ some client
unfolding first
first_self me peer client p h [] e n a = cc
first_self me peer client p h (c ∷ cs) e n a =
    ground (arith, eq_refl peer, first_self me peer client p h cs)

-- A caller with a pending call and an answering connection, neither user in a call yet, and no
-- connection registered for both.
pub record CanAnswer (me : String) (client p : ℕ) (msg : Message) (w : World) : Type 0 where
  pub signed_in : (me == "") ≡ false
  pub named : (msg.recipient == "") ≡ false
  pub dialled : pending_caller msg.recipient w.server ≡ some p
  pub caller_free : any_client_in_call msg.recipient w.server ≡ none
  pub callee_free : any_client_in_call me w.server ≡ none
  pub not_callers : any (λ c. eqb c client) (clients_of msg.recipient w.server) ≡ false
  pub not_callees : any (λ c. eqb c p) (clients_of me w.server) ≡ false
  pub registered : any (λ c. eqb c client) (clients_of me w.server) ≡ true

call_peers_answered :
    (me : String) (client p : ℕ) (msg : Message) (w : World)
    → CanAnswer me client p msg w
    → (call_peer msg.recipient me (call_answer me client msg w).0.server ≡ some p)
      × (call_peer me msg.recipient (call_answer me client msg w).0.server ≡ some client)
unfolding call_peer clients_of pending_caller any_client_in_call
call_peers_answered me client p msg w a =
    rw (call_answer_heap me client p msg w a.signed_in a.dialled) (
      first_peer me msg.recipient client p w.server.conns (clients_of msg.recipient w.server)
          a.dialled a.caller_free a.not_callers,
      first_self me msg.recipient client p w.server.conns (clients_of me w.server) a.registered
          a.callee_free a.not_callees,
    )

-- The two connections are in the call with each other's user.
call_states_answered :
    (me : String) (client p : ℕ) (msg : Message) (w : World)
    → CanAnswer me client p msg w
    → let h = (call_answer me client msg w).0.server.conns in
      ((h client).in_call ≡ true)
      × ((h client).call_partner ≡ msg.recipient)
      × (eqb p client ≡ false → ((h p).in_call ≡ true) × ((h p).call_partner ≡ me))
call_states_answered me client p msg w a =
    rw (call_answer_heap me client p msg w a.signed_in a.dialled)
      (ground arith, ground arith, λ d. (ground arith, ground arith))

pub relayed : String → Message → Message
relayed me sig = record blank {
  kind = "call_signal";
  sender = me;
  recipient = sig.recipient;
  body = sig.body;
  sdp = sig.sdp;
  candidate = sig.candidate;
}

signal_to_peer :
    (me : String) (client p : ℕ) (sig : Message) (w : World)
    → (me == "") ≡ false
    → (sig.recipient == "") ≡ false
    → valid_call_signal sig ≡ true
    → (w.server.conns client).in_call ≡ true
    → (w.server.conns client).call_partner ≡ sig.recipient
    → call_peer sig.recipient me w.server ≡ some p
    → call_signal me client sig w ≡ (p, relayed me sig) ∷ []
unfolding call_signal relayed
signal_to_peer me client p sig w h k v i c e = ground (arith, eq_refl sig.recipient)

first_of-any :
    (p : ℕ → Bool) (c : ℕ) (cs : List ℕ) → first p cs ≡ some c → any (λ d. eqb d c) cs ≡ true
unfolding first
first_of-any p c [] e = cc
first_of-any p c (d ∷ cs) e = ground (arith, first_of-any p c cs)

differ :
    (c d : ℕ) (cs : List ℕ)
    → any (λ e. eqb e c) cs ≡ false
    → any (λ e. eqb e d) cs ≡ true
    → eqb d c ≡ false
differ c d [] a b = cc
differ c d (e ∷ cs) a b = ground (arith, differ c d cs)

-- Once a call is answered, every valid signal of the one side reaches exactly the one connection
-- of the other side that is in the call, and no other: the caller's dialling connection and the
-- callee's answering one. This is for two users that were in no call before and share no
-- connection.
pub call_signal-call_answer :
    (me : String) (client p : ℕ) (msg there back : Message) (w : World)
    → CanAnswer me client p msg w
    → valid_call_signal there ≡ true
    → valid_call_signal back ≡ true
    → there.recipient ≡ msg.recipient
    → back.recipient ≡ me
    → let w' = (call_answer me client msg w).0 in
      (call_signal me client there w' ≡ (p, relayed me there) ∷ [])
      × (call_signal msg.recipient p back w' ≡ (client, relayed msg.recipient back) ∷ [])
unfolding first pending_caller
call_signal-call_answer me client p msg there back w a v v' r r' =
    let (peer, self) = call_peers_answered me client p msg w a in
    let (i, partner, caller) = call_states_answered me client p msg w a in
    let (i', partner') = caller (
      differ client p (clients_of msg.recipient w.server) a.not_callers
        (first_of-any _ p (clients_of msg.recipient w.server) a.dialled)) in
    (
      signal_to_peer me client p there (call_answer me client msg w).0 a.signed_in (rw r a.named) v
          i (partner ∙ sym r) (rw r peer),
      signal_to_peer msg.recipient p client back (call_answer me client msg w).0 a.named
          (rw r' a.signed_in) v' i' (partner' ∙ sym r') (rw r' self),
    )
