-- ===== src/Config.antt =====
-- src/config.c: loading /etc/watch_it.conf.
pub mod Types
pub mod FireOn
pub mod Dirs
pub mod Load
pub mod Free
pub mod Printer
pub mod Examples
