-- ===== src/Gateway.antt =====
-- The parent process of main.c: its main loop, the requests that the client process posts, and the
-- responses of the nodes. A result `none` is an access out of bounds or a loop that does not end.
pub mod State
pub mod Request
pub mod Response
pub mod Round
pub mod Poll
pub mod Sender
pub mod Received
pub mod Sound
pub mod Membership
pub mod Commanded
pub mod Served
pub mod Stale
pub mod Heard
pub mod Running
pub mod Scan
mod Tests
