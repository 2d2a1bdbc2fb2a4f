-- ===== src/Kv/Promises.antt =====
-- What kv/tree_state.py promises, operation by operation: success, refusal and what stays.
pub mod Configs
pub mod Forks
pub mod Prunes
pub mod Appends
pub mod Scans
pub mod Runs
