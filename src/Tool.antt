-- ===== src/Tool.antt =====
-- The tool pdip.c: its command lines and their parameters.
pub mod Params
pub mod Cmdline
