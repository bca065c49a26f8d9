-- ===== src/Tests.antt =====
-- Each theorem at a concrete input, and runs of the code on inputs that can be followed by hand.
mod AuthTracker
mod Sessions
mod Registry
mod Calls
mod Voice
mod Whiteboard
mod Accounts
mod SignIn
mod Streams
mod Rewards
mod Turn
mod Contacts
mod Convos
mod Channels
