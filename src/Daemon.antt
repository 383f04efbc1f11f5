-- ===== src/Daemon.antt =====
-- src/watch_it.c: the table of watches and the loop that reads inotify events.
pub mod Table
pub mod Reader
pub mod Start
pub mod Threads
pub mod Life
pub mod Examples
