-- ===== src/Server.antt =====
-- The whole server: the table of sessions, the operations that change the state one after another, and
-- the dogs of every session.
pub mod Shrink
pub mod Joining
pub mod Sound
pub mod Ticking
pub mod Steps
pub mod Invariant
pub mod Answers
pub mod Posts
pub mod Requests
pub mod Tests
