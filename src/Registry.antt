-- ===== src/Registry.antt =====
-- nexus_server/clients.go: the registry of live connections. A connection is a number, as a
-- pointer is, and `conns` holds what it points to; `Server.clients` maps a username to the
-- connections that the user has open, oldest first. Each operation holds the lock from start to end.
pub mod Laws
use phazechat_world.Prelude.{
  ℕ, zero, suc, ◌+◌, ◌-◌, ◌*◌, ◌/◌, ◌%◌, ◌≤◌, ◌<◌, min, max, ◌≡◌, refl, sym, ap, subst, ◌∙◌, ◌≢◌,
  ◌↔◌, ◌⊎◌, inl, inr, Bool, true, false, not, ◌&&◌, ◌||◌, Option, none, some, List, [], ◌∷◌, ◌++◌,
  map, arith, eq_iff, eq_refl, String, Map, lookup, insert, delete, retain, guarded, lookup-insert,
  lookup-delete, lookup-retain, modify, update_all, apply, lookup-modify, lookup-update_all,
  map_laws, length, keep, any, All, length-append, length-keep-le, ltb, leb, eqb, ◌==◌,
  if◌then◌else◌, Bool-cases, Option-cases, trim_space,
}

-- The fields of `Client` that the server changes after the connection was made.
pub record Conn : Type 0 where
  pub username : String
  pub status : String
  pub in_call : Bool
  pub call_partner : String
  pub pending_call_room : String
  pub pending_call_id : ℕ
  pub pending_call_started : ℕ
  pub pending_call_rtc : Bool
  pub pending_call_answered : Bool

pub record Server : Type 0 where
  pub clients : Map (List ℕ)
  pub conns : ℕ → Conn

-- `s.Clients[username]`: nil for a missing key.
unfoldable pub slice_of : Option (List ℕ) → List ℕ
slice_of none = []
slice_of (some cs) = cs

unfoldable pub clients_of : String → Server → List ℕ
unfolding slice_of
clients_of username s = slice_of (lookup username s.clients)

-- A write through one pointer.
unfoldable pub update_conn : ℕ → (Conn → Conn) → Server → Server
update_conn c f s = record s { conns = λ j. if eqb j c then f (s.conns j) else s.conns j }

unfoldable pub add_client : String → ℕ → Server → Server
unfolding clients_of
add_client username c s = record s {
  clients = insert username (clients_of username s ++ c ∷ []) s.clients;
}

-- The loop of `removeClientLocked`: the first occurrence goes.
unfoldable pub remove_first : ℕ → List ℕ → List ℕ
remove_first c [] = []
remove_first c (d ∷ cs) = if eqb d c then cs else d ∷ remove_first c cs

unfoldable pub store_slice : String → List ℕ → Server → ℕ × Server
store_slice username [] s = (0, record s { clients = delete username s.clients })
store_slice username (d ∷ cs) s =
    (length (d ∷ cs), record s { clients = insert username (d ∷ cs) s.clients })

unfoldable pub remove_client : String → ℕ → Server → ℕ × Server
unfolding clients_of remove_first store_slice
remove_client username c s = store_slice username (remove_first c (clients_of username s)) s

-- The connections that are sent the reason and closed, and the registry without them.
unfoldable pub drop_all_clients : String → Server → List ℕ × Server
unfolding clients_of
drop_all_clients username s =
    (clients_of username s, record s { clients = delete username s.clients })

unfoldable pub is_online : String → Server → Bool
unfolding clients_of
is_online username s = ltb 0 (length (clients_of username s))

-- `alive c` says that a write to the connection succeeds.
unfoldable pub send_to : (ℕ → Bool) → String → Server → Bool
unfolding clients_of
send_to alive username s = any alive (clients_of username s)

-- Who gets a message that is echoed to the user's other sessions.
unfoldable pub send_to_others : String → ℕ → Server → List ℕ
unfolding clients_of
send_to_others username except s = keep (λ c. not (eqb c except)) (clients_of username s)

unfoldable pub online_usernames : Server → List String
online_usernames s = map (λ e. e.0) s.clients

unfoldable pub online_user_count : Server → ℕ
online_user_count s = length s.clients

unfoldable pub count_all : Map (List ℕ) → ℕ
count_all [] = 0
count_all ((u, cs) ∷ m) = length cs + count_all m

unfoldable pub connection_count : Server → ℕ
unfolding count_all
connection_count s = count_all s.clients

unfoldable pub all_conns : Map (List ℕ) → List ℕ
all_conns [] = []
all_conns ((u, cs) ∷ m) = cs ++ all_conns m

-- The connections that `broadcastAll` sends to.
unfoldable pub broadcast_all : Server → List ℕ
unfolding all_conns
broadcast_all s = all_conns s.clients

-- The first connection of a list that passes a test.
unfoldable pub first : (ℕ → Bool) → List ℕ → Option ℕ
first p [] = none
first p (c ∷ cs) = if p c then some c else first p cs

unfoldable pub any_client_in_call : String → Server → Option ℕ
unfolding first clients_of
any_client_in_call username s = first (λ c. (s.conns c).in_call) (clients_of username s)

-- Which of `peer`'s connections is in a call with `with_user`.
unfoldable pub call_peer : String → String → Server → Option ℕ
unfolding first clients_of
call_peer peer with_user s =
    first (λ c. (s.conns c).in_call && (s.conns c).call_partner == with_user) (clients_of peer s)

-- Which of `caller`'s connections has placed a call.
unfoldable pub pending_caller : String → Server → Option ℕ
unfolding first clients_of
pending_caller caller s =
    first
      (λ c. not ((s.conns c).pending_call_room == "") || not (eqb (s.conns c).pending_call_id 0))
      (clients_of caller s)
