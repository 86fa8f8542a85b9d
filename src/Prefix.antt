-- ===== src/Prefix.antt =====
-- The prefix cache of tools/qwfn_server.cpp (`prefix_entry`, `prefix_reuse`, `pool_*`): whole-sequence
-- checkpoints of the conversations that the engine switched away from. The log lines, the timings and
-- the live counters are not modelled.
pub mod Engine
pub mod Server
pub mod Evict
pub mod Kept
pub mod Accounts
pub mod Saves
pub mod Switches
pub mod Room
pub mod Keep
pub mod Longest
pub mod Restore
pub mod Continue
pub mod Examples
