-- ===== src/Experts.antt =====
-- The expert cache of src/qwfn_expert_cache.cpp and src/qwfn_expert_cache.h.
pub mod Cache
pub mod Names
pub mod Victim
pub mod Promote
pub mod Kept
pub mod Fetch
pub mod Settle
pub mod Speculative
pub mod Session
pub mod Examples
