-- ===== src/Tests.antt =====
-- Small inputs for the theorems, and runs of the code.
pub mod Runs
pub mod Witnesses
pub mod Programs
pub mod Rooms
pub mod Chats
pub mod Tanks
pub mod Logs
pub mod Sessions
