-- ===== src/Handling/Invariant.antt =====
-- What holds of the list of files between the critical sections of the two threads.
pub mod Defs
pub mod Keys
pub mod Produced
pub mod Consumed
pub mod Reachable
