-- ===== src/Tests/Registry.antt =====
-- The registry: nexus_server/clients.go.
use phazechat_world.Prelude.{◌≡◌, refl, true, false, [], ◌∷◌, lookup, insert, delete, length, ltb}
use phazechat_world.Registry.{Conn, Server, clients_of, is_online, add_client, remove_client}
use phazechat_world.Registry.Laws.{
  remove_client-add_client, remove_client_lem, is_online-changes, change, changes, opens, closes,
  IsWithout,
}

abbrev idle_conn : Conn
idle_conn = record {
  username = "";
  status = "Online";
  in_call = false;
  call_partner = "";
  pending_call_room = "";
  pending_call_id = 0;
  pending_call_started = 0;
  pending_call_rtc = false;
  pending_call_answered = false;
}

abbrev one_tab : Server
one_tab = record { clients = ("alice", 1 ∷ []) ∷ []; conns = λ _. idle_conn }

last_tab_closes : is_online "alice" (remove_client "alice" 1 one_tab).1 ≡ false
unfolding is_online remove_client lookup delete
last_tab_closes = refl

remove_client-add_client_example :
    clients_of "alice" (remove_client "alice" 2 (add_client "alice" 2 one_tab)).1
    ≡ clients_of "alice" one_tab
unfolding clients_of lookup
remove_client-add_client_example = remove_client-add_client "alice" "alice" 2 one_tab refl

abbrev two_tabs : Server
two_tabs = record { clients = ("alice", 1 ∷ 2 ∷ []) ∷ []; conns = λ _. idle_conn }

remove_client_lem_example :
    IsWithout 1
      (clients_of "alice" two_tabs)
      (clients_of "alice" (remove_client "alice" 1 two_tabs).1)
    × (clients_of "bob" (remove_client "alice" 1 two_tabs).1 ≡ clients_of "bob" two_tabs)
    × ((remove_client "alice" 1 two_tabs).0
        ≡ length (clients_of "alice" (remove_client "alice" 1 two_tabs).1))
    × (is_online "alice" (remove_client "alice" 1 two_tabs).1
        ≡ ltb 0 (remove_client "alice" 1 two_tabs).0)
remove_client_lem_example = remove_client_lem "alice" "bob" 1 two_tabs

is_online-changes_example :
    is_online "alice" (
      changes
        (opens "alice" 1 ∷ opens "alice" 2 ∷ closes "alice" 1 ∷ [])
        (record { clients = []; conns = λ _. idle_conn }))
    ≡ true
unfolding changes lookup insert delete remove_client add_client change
is_online-changes_example =
    is_online-changes (opens "alice" 1 ∷ opens "alice" 2 ∷ closes "alice" 1 ∷ []) "alice"
      (λ _. idle_conn)
