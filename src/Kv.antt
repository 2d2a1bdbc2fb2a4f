-- ===== src/Kv.antt =====
-- core/autotree_core/kv: the paged KV cache. `Pool` owns the pages, `Tree` the branches over them.
pub mod Errors
pub mod Exec
pub mod Config
pub mod Pool
pub mod Gather
pub mod Branches
pub mod Cover
pub mod Tree
pub mod Append
pub mod Dedup
pub mod Promises
mod Tests
