-- ===== src/Shell.antt =====
-- shell/: what carries the actions of the link out, shell/runtime.c, the host commands, shell/host.c, and
-- the settings file, shell/settings.c.
pub mod Sinks
pub mod Runtime
pub mod Host
pub mod Calls
pub mod Settings
mod Tests
