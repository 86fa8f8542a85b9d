-- ===== src/Decode.antt =====
-- The prefill and the decode loop of `generate` in tools/qwfn_server.cpp: a sampled token goes in with drafts, the
-- engine verifies them, and what it rejects is rolled back.
pub mod Parts
pub mod Prefill
pub mod Reply
pub mod Drafts
pub mod Verify
pub mod Loop
pub mod Reference
pub mod Lossless
pub mod Consumed
pub mod Examples
