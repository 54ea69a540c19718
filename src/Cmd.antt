-- ===== src/Cmd.antt =====
-- The commands: the flags with their defaults, and what main makes of them below the flag package and
-- the manager of controller-runtime.
pub mod Discovery
pub mod TeardownManager
pub mod JanitorManager
pub mod Startup
mod Tests
