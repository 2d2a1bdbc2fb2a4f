-- ===== src/Sdk.antt =====
-- sdk/autotree_sdk: what a client of the server makes of a streamed answer.
pub mod Trace
pub mod Sse
