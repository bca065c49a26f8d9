-- ===== src/Calls/Rooms.antt =====
-- nexus_server/ws_handlers.go: who can take up the room of a placed call.
use phazechat_world.Prelude.{
  ℕ, ◌≡◌, refl, sym, ◌∙◌, inl, inr, Bool, true, false, not, ◌&&◌, ◌||◌, none, some, List, [], ◌∷◌,
  ◌++◌, arith, eq_iff, eq_refl, String, length, any, ltb, eqb, ◌==◌, if◌then◌else◌, Bool-cases,
}
use phazechat_world.Registry.{Conn, clients_of, any_client_in_call, pending_caller, first}
use phazechat_world.Calls.{
  Message, World, Sent, place_call, dial, call_offer, hush, announce_call, call_answer,
}
use Prim.Native.String.{◌++◌ as append}
use Prim.Native.String
use Prim.Native.Char.{Char}
use phazechat_world.Calls.Peers.{call_answer_heap}

-- A connection of `caller` holds the room of a call that was placed.
pub record HoldsRoom (caller : String) (a : ℕ) (room : String) (w : World) : Type 0 where
  pub found : pending_caller caller w.server ≡ some a
  pub room_held : (w.server.conns a).pending_call_room ≡ room

got_room : ℕ → String → Sent → Bool
got_room c room sent = any (λ e. eqb e.0 c && e.1.room_id == room) sent

any-append : (p : ℕ × Message → Bool) (xs ys : Sent) → any p xs ≡ true → any p (xs ++ ys) ≡ true
any-append p [] ys h = cc
any-append p (x ∷ xs) ys h = ground (arith, any-append p xs ys)

announced_room :
    (me : String) (c a : ℕ) (msg : Message) (k : Conn) (room : String)
    → k.pending_call_room ≡ room
    → got_room c room (announce_call me c msg (some (a, k))) ≡ true
unfolding announce_call got_room
announced_room me c a msg k room e = ground (arith, eq_refl room)

call_answer_sent :
    (me : String) (c a : ℕ) (msg : Message) (w : World)
    → (me == "") ≡ false
    → pending_caller msg.recipient w.server ≡ some a
    → (call_answer me c msg w).1
      ≡ announce_call me c msg (some (a, w.server.conns a)) ++ hush me c msg w
unfolding call_answer
call_answer_sent me c a msg w h e = rw (h, e, call_answer) refl

-- Whoever answers takes the room, and becomes the caller's partner.
answer_takes_room :
    (me : String) (c a : ℕ) (msg : Message) (room : String) (w : World)
    → (me == "") ≡ false
    → eqb a c ≡ false
    → HoldsRoom msg.recipient a room w
    → (got_room c room (call_answer me c msg w).1 ≡ true)
      × (((call_answer me c msg w).0.server.conns a).in_call ≡ true)
      × (((call_answer me c msg w).0.server.conns a).call_partner ≡ me)
answer_takes_room me c a msg room w h d r = (
  rw (call_answer_sent me c a msg w h r.found) (
      unfold got_room in
      any-append _ (announce_call me c msg (some (a, w.server.conns a))) (hush me c msg w)
        (announced_room me c a msg (w.server.conns a) room r.room_held)),
  rw (call_answer_heap me c a msg w h r.found) (ground arith),
  rw (call_answer_heap me c a msg w h r.found) (ground arith),
)

-- What `call_offer` needs to ring.
pub record CanOffer (are_friends : String → String → Bool) (me : String) (a : ℕ) (msg : Message)
    (w : World) : Type 0 where
  pub signed_in : (me == "") ≡ false
  pub friendly : are_friends me msg.recipient ≡ true
  pub idle : any_client_in_call msg.recipient w.server ≡ none
  pub reachable : ltb 0 (length (clients_of msg.recipient w.server)) ≡ true
  pub nothing_pending : pending_caller me w.server ≡ none
  pub registered : any (λ c. eqb c a) (clients_of me w.server) ≡ true

pub offer_places :
    (are_friends : String → String → Bool) (room : String) (stored : Bool) (now : ℕ) (me : String)
    (a : ℕ) (msg : Message) (w : World)
    → CanOffer are_friends me a msg w
    → call_offer are_friends (some room) stored now me a msg w
      ≡ place_call stored now (append "phaze-" room) me a msg (clients_of msg.recipient w.server) w
unfolding call_offer
offer_places are_friends room stored now me a msg w o = ground arith

cons_nonempty : (t rest : String) (c : Char) → t ≡ String.◌∷◌ c rest → (t == "") ≡ false
cons_nonempty t rest c e = elim (Bool-cases (t == "")) [
  | inl h ↦ absurd (let k : String.◌∷◌ c rest ≡ "" = sym e ∙ (eq_iff t "").0 h in cc)
  | inr h ↦ h
]

room_nonempty : (t : String) → (append "phaze-" t == "") ≡ false
room_nonempty t =
    cons_nonempty (append "phaze-" t) (append "haze-" t) "p" (String.append.cons "p" "haze-" t)

first_placed :
    (a : ℕ) (h : ℕ → Conn) (f : Conn → Conn) (cs : List ℕ)
    → ((k : Conn) → ((f k).pending_call_room == "") ≡ false)
    → any (λ c. eqb c a) cs ≡ true
    → first (λ c. not ((h c).pending_call_room == "") || not (eqb (h c).pending_call_id 0)) cs
      ≡ none
    → first
        (λ c.
          not ((if eqb c a then f (h c) else h c).pending_call_room == "")
          || not (eqb (if eqb c a then f (h c) else h c).pending_call_id 0))
        cs
      ≡ some a
unfolding first
first_placed a h f [] r i n = cc
first_placed a h f (c ∷ cs) r i n = ground (arith, r (h c), first_placed a h f cs r)

-- A call that is placed makes its connection the one that holds the room.
place_call-HoldsRoom :
    (stored : Bool) (now : ℕ) (room me : String) (a : ℕ) (msg : Message) (ring : List ℕ) (w : World)
    → (room == "") ≡ false
    → any (λ c. eqb c a) (clients_of me w.server) ≡ true
    → pending_caller me w.server ≡ none
    → HoldsRoom me a room (place_call stored now room me a msg ring w).0
unfolding place_call pending_caller clients_of
place_call-HoldsRoom true now room me a msg ring w r i n = record {
  found =
      first_placed a w.server.conns (dial room w.next_call now msg) (clients_of me w.server)
        (λ k. r) i n;
  room_held = ground arith;
}
place_call-HoldsRoom false now room me a msg ring w r i n = record {
  found = first_placed a w.server.conns (dial room 0 now msg) (clients_of me w.server) (λ k. r) i n;
  room_held = ground arith;
}

pub call_offer-HoldsRoom :
    (are_friends : String → String → Bool) (room : String) (stored : Bool) (now : ℕ) (me : String)
    (a : ℕ) (msg : Message) (w : World)
    → CanOffer are_friends me a msg w
    → HoldsRoom me a
        (append "phaze-" room)
        (call_offer are_friends (some room) stored now me a msg w).0
call_offer-HoldsRoom are_friends room stored now me a msg w o =
    rw (offer_places are_friends room stored now me a msg w o) (
      place_call-HoldsRoom stored now (append "phaze-" room) me a msg _ w (room_nonempty room)
        o.registered o.nothing_pending)

-- A call placed to one user can be taken up by any other signed-in user, friend or not: an answer
-- that names the caller is sent the call's room, and the caller's connection is then in a call
-- with whoever sent it. (The handler does not ask whom the call was placed to.)
pub call_answer-call_offer :
    (are_friends : String → String → Bool) (room : String) (stored : Bool) (now : ℕ)
    (me stranger : String) (a c : ℕ) (msg reply : Message) (w : World)
    → CanOffer are_friends me a msg w
    → (stranger == "") ≡ false
    → eqb a c ≡ false
    → reply.recipient ≡ me
    → let w' = (call_offer are_friends (some room) stored now me a msg w).0 in
      (any
          (λ e. eqb e.0 c && e.1.room_id == append "phaze-" room)
          (call_answer stranger c reply w').1
        ≡ true)
      × (((call_answer stranger c reply w').0.server.conns a).in_call ≡ true)
      × (((call_answer stranger c reply w').0.server.conns a).call_partner ≡ stranger)
unfolding got_room
call_answer-call_offer are_friends room stored now me stranger a c msg reply w o h d e =
    answer_takes_room stranger c a reply (append "phaze-" room)
      (call_offer are_friends (some room) stored now me a msg w).0 h d
      (rw e (call_offer-HoldsRoom are_friends room stored now me a msg w o))
