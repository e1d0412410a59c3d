-- ===== src/Rsysd.antt =====
-- The rsystem server of rsys/rsystemd.c: the part that each module models stands in its header.
pub mod Affinity
pub mod Fsm
pub mod Fds
pub mod Server
