-- ===== src/Contacts/Runs.antt =====
-- What may happen to the tables of contacts and direct messages, by the messages of
-- nexus_server/ws_handlers.go, each with the user whose connection sends it.
use phazechat_world.Prelude.{Bool, List, [], ◌∷◌, String}
use phazechat_world.Contacts.Messages.{
  Message, Store, msg, msg_change, block, unblock, friend_request_message, friend_accept,
  friend_reject, friend_remove, contact_group_set,
}

pub data Request : Type 0 where
  writes : Bool → String → Message → Request
  revises : String → Message → Request
  blocks_user : String → Message → Request
  unblocks_user : String → Message → Request
  asks : String → Message → Request
  accepts : String → Message → Request
  rejects : String → Message → Request
  removes : String → Message → Request
  files : String → Message → Request

unfoldable pub serve : Request → Store → Store
unfolding msg msg_change block unblock friend_request_message friend_accept friend_reject
    friend_remove contact_group_set
serve (writes reached username m) st = (msg username reached m st).0
serve (revises username m) st = (msg_change username m st).0
serve (blocks_user username m) st = (block username m st).0
serve (unblocks_user username m) st = (unblock username m st).0
serve (asks username m) st = (friend_request_message username m st).0
serve (accepts username m) st = (friend_accept username m st).0
serve (rejects username m) st = (friend_reject username m st).0
serve (removes username m) st = (friend_remove username m st).0
serve (files username m) st = (contact_group_set username m st).0

unfoldable pub serve_all : List Request → Store → Store
unfolding serve
serve_all [] st = st
serve_all (r ∷ rs) st = serve_all rs (serve r st)

unfoldable pub no_contacts : Store
no_contacts = record {
  contacts = record { friends = []; blocks = []; groups = [] };
  dms = [];
  reactions = [];
  offline = [];
}
