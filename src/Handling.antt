-- ===== src/Handling.antt =====
-- src/event_handling.c: the list of open files, the producer's `event_handling_add_event`, and the
-- consumer thread that runs the commands.
pub mod Types
pub mod Clock
pub mod Files
pub mod Add
pub mod Commands
pub mod Consumer
pub mod Wait
pub mod System
pub mod Init
pub mod Invariant
pub mod Lookup
pub mod Silent
pub mod Origin
pub mod Wakeup
pub mod Phases
pub mod Life
pub mod Accounts
pub mod Tests
pub mod Samples
pub mod Examples
