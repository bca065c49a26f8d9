-- ===== src/Lib.antt =====
-- The Nexus server of Phaze (nexus_server/, Go): one process that keeps accounts and sessions in
-- SQLite, holds a WebSocket for every open client, and relays messages, calls, voice rooms and
-- whiteboards between them. A client signs in (a password and a second factor, a session token, a QR
-- code or a reset), the connection enters the registry, and each message that it sends is a case of
-- one switch in nexus_server/ws_handlers.go.
--
-- How the code is modelled. A table is a list of rows or an association list by its primary key; a
-- Go map is an association list, its order standing for Go's unspecified one. A function that writes
-- is a function from the state to its answer and the state after it; what a handler sends is a list of
-- events in their order. Each definition of an operation runs from start to end, and what can come
-- between two operations is a list of steps that the theorems quantify over. The sign-in counters and
-- the registry hold their locks for as long; a password reset, which holds none between its read and
-- its transaction, is two operations, `begin_reset` and `commit_reset`; other functions of several SQL
-- statements are modelled as if nothing came between those. Times are natural numbers of nanoseconds
-- (of seconds in Rewards), and a difference of times is cut off at 0, which a clock that does not run
-- backwards never needs. No loop needs fuel: every loop is a recursion on a list or a text.
--
-- What is a parameter: the clock (an argument), random tokens (an argument, `none` where the source of
-- randomness fails), bcrypt, SHA-256, the TOTP library, the JSON codec of strokes, the HMAC, what a
-- fetch from Cloudflare gives, and whether an insert or a socket's write succeeds where the code looks
-- at that; and SQLite's comparison of a stored time with CURRENT_TIMESTAMP, which compares texts (of QR
-- codes and of device challenges that are purged). Other database errors are not modelled.
--
-- The files.
--   Prelude        Go's maps, sets, strings and tests, with their laws; the names all modules share.
--   AuthTracker    nexus_server/authtracker.go: `record_fail` is recordFail, and so on, the name in
--                  snake case. Entries and Calls compare two trackers, Counting counts failures, Stale
--                  is about the sweeper.
--   Accounts       nexus_server/main.go (authenticateUser, verifyUser, userBanInfo) and totp.go.
--                  Passwords is about the migration of hashes, OneTime about codes.
--   Sessions       nexus_server/session.go, devices.go, and the QR and reset functions of main.go, over
--                  one store. Operations lists what may happen to a store; Changes, Release, Lifetime,
--                  Guesses, Row, Spent, Once and QrOnce are about runs of it.
--   Registry       nexus_server/clients.go, connections being numbers over a heap of their fields.
--   Calls          nexus_server/calls.go, callsignal.go and the call messages of ws_handlers.go, over a
--                  Registry and the table of calls.
--   Spaces         the tables of spaces and channels that Voice, Whiteboard and Channels read.
--   Voice          voice rooms: nexus_server/main.go (voiceRoomJoin ...) and ws_handlers.go (voice_join,
--                  voice_leave, voice_signal).
--   Streams        live streams: nexus_server/main.go (streamStart ...) and the stream_ messages of
--                  ws_handlers.go.
--   Rewards        nexus_server/rewards.go. Roll is about one roll; Crates has the tables and Runs what
--                  may happen to them; History puts a user's crates in the order of their opening for
--                  Fairness (pity and shards) and Streaks (runs of common items); Limits is about grants,
--                  Crafting about crafts.
--   Turn           nexus_server/cfturn.go, and turnProvider and generateMediaToken of main.go. Cache is
--                  about the cached credentials, Servers about Cloudflare's list of servers.
--   Contacts       friends, blocks and groups of contacts: the functions of nexus_server/main.go. Messages
--                  has direct messages and the messages of ws_handlers.go about both; Runs is what may
--                  happen to the tables, Kept what each message leaves alone; Consent is about friends,
--                  Blocking about blocks.
--   Convos         group conversations: nexus_server/main.go (createConversation ...) and the convo_
--                  messages of ws_handlers.go, over the friends of Contacts. Rows and Invites are about
--                  members.
--   Channels       the messages of channels: channel_msg, channel_react, channel_edit, channel_delete and
--                  channel_pin of nexus_server/ws_handlers.go. Say is about who may delete a post, Kept
--                  about single messages, Authors about who changes a post.
--   Whiteboard     nexus_server/whiteboard.go and the wb_ messages of ws_handlers.go.
--   SignIn         the messages auth, session_auth and qr_login_check of nexus_server/ws_handlers.go, over
--                  the counters, accounts, sessions, the registry and spaces. Blocking and Runs keep an
--                  invariant, NeverBlocks and Tokens are about whole handlers.
--   Tests          every theorem at a concrete input.
--
-- Not modelled: the HTTP pages and the admin portal, e-mail, uploads and blobs, stories,
-- support, imports, the bot, the retention jobs, and the clients (web/, android/, desktop/), which are
-- input and output around the tables or other programs. The history of direct messages, the
-- administration of spaces, the limits per address and the disconnect in the middle of a call are core
-- logic that has no model yet.
pub mod Prelude
pub mod AuthTracker
pub mod Sessions
pub mod Registry
pub mod Calls
pub mod Spaces
pub mod Voice
pub mod Whiteboard
pub mod Accounts
pub mod SignIn
pub mod Streams
pub mod Rewards
pub mod Turn
pub mod Contacts
pub mod Convos
pub mod Channels
mod Tests
